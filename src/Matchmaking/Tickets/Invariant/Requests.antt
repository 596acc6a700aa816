-- ===== src/Matchmaking/Tickets/Invariant/Requests.antt =====
-- matchmaking.go: the invariant of the queue through each request.
use splatoon.Base.{
  ℕ, suc, ◌<◌, ◌≡◌, ◌≢◌, refl, sym, subst, Bool, true, false, not, inl, inr, Option, none, some,
  List, [], ◌∷◌, ◌++◌, map, last_index_byte, if◌then◌else◌, leb, ◌==◌, Text, codes, is_empty,
  text_eq, lookup, insert, erase, Assoc, lookup-insert, lookup-erase, keep, All, AllPairs,
  All-append, All-keep, All-map, All-of-map, All-zip, AllPairs-keep, AllPairs-append,
  AllPairs-cross, length, Bool-cases, Option-cases, arith,
}
use splatoon.Matchmaking.Modes.{last_seg, s3_config_echo, base_config_name, seuil_pour_config}
use splatoon.Matchmaking.Modes.Paths.{config_path, IsSegment, last_seg-IsSegment}
use splatoon.Matchmaking.Types.{Ticket, Waiter, Server}
use splatoon.Matchmaking.Queue.{waiters_for_config, configs_en_attente, seuil_courant}
use splatoon.Matchmaking.Form.{Setting}
use splatoon.Matchmaking.Form.Seat.{IsWaiting}
use splatoon.Matchmaking.Form.Roster.{IsNamed}
use splatoon.Matchmaking.Tickets.{
  Request, resolved_config, regular_config, create_ticket, tracked_ticket, track_ticket,
  revise_config, revise_from, revise, remove_first, leave, holds_ticket, cancelled_waiter,
  cancel_ticket,
}
use splatoon.Matchmaking.Tickets.Invariant.{Inv, Apart, Apart-sym, NamedTicket}
use splatoon.Matchmaking.Tickets.Invariant.Seating.{form_match-Inv}

if-Inv : (b : Bool) (s s' : Server) → Inv s → Inv s' → Inv (if b then s else s')
if-Inv true s s' v v' = v
if-Inv false s s' v v' = v'

regular_named : (x : Text) × (regular_config ≡ config_path x) × IsSegment x
unfolding last_index_byte
regular_named = (codes "regular_match_config", refl, refl)

resolved_named :
    (req : Option Request) → (x : Text) × (resolved_config req ≡ config_path x) × IsSegment x
unfolding resolved_config s3_config_echo
resolved_named none = regular_named
resolved_named (some r) = elim (Bool-cases (is_empty r.matchmaking_config)) [
  | inl e ↦ rw e regular_named
  | inr e ↦ rw e (last_seg r.matchmaking_config, refl, last_seg-IsSegment r.matchmaking_config)
]

created_named :
    (st : Setting) (uid tenant : Text) (req : Option Request) (s : Server)
    → NamedTicket (create_ticket st uid tenant req s).0
unfolding create_ticket
created_named st uid tenant req s = resolved_named req

-- A map in which a ticket for a path has been written has tickets for paths only.
stored_insert :
    (k : Text) (t : Ticket) (m : Assoc Ticket)
    → NamedTicket t
    → ((j : Text) (u : Ticket) → lookup j m ≡ some u → NamedTicket u)
    → (j : Text) (u : Ticket) → lookup j (insert k t m) ≡ some u
    → NamedTicket u
stored_insert k t m n all j u e = elim (Bool-cases (text_eq k j)) [
  | inl same ↦ let u_is : t ≡ u = cc (lookup-insert k j t m, same, e) in subst NamedTicket u_is n
  | inr other ↦ all j u (rw (lookup-insert k j t m, other) at e)
]

stored_erase :
    (k : Text) (m : Assoc Ticket)
    → ((j : Text) (u : Ticket) → lookup j m ≡ some u → NamedTicket u)
    → (j : Text) (u : Ticket) → lookup j (erase k m) ≡ some u
    → NamedTicket u
stored_erase k m all j u e = elim (Bool-cases (text_eq k j)) [
  | inl same ↦ absurd (cc (lookup-erase k j m, same, e))
  | inr other ↦ all j u (cc (lookup-erase k j m, other, e))
]

pub create_ticket-Inv :
    (st : Setting) (uid tenant : Text) (req : Option Request) (s : Server)
    → Inv s
    → Inv (create_ticket st uid tenant req s).1
unfolding create_ticket
create_ticket-Inv st uid tenant req s v = record {
  fresh = v.fresh;
  fresh_answered = v.fresh_answered;
  apart = v.apart;
  waits = v.waits;
  named = v.named;
  gone = v.gone;
  sent = v.sent;
  stored = stored_insert _ _ s.tickets (created_named st uid tenant req s) v.stored;
  roster = v.roster;
}

pub tracked_named : (name : Text) (s : Server) → Inv s → NamedTicket (tracked_ticket name s)
unfolding tracked_ticket
tracked_named name s v = elim (Option-cases (lookup (last_seg name) s.tickets)) [
  | inl e ↦ rw (e, tracked_ticket) regular_named
  | inr (t, e) ↦ rw (e, tracked_ticket) (v.stored _ t e)
]

-- A new waiter at the end of the queue, with an identity that nobody has had.
enqueued-Inv :
    (w : Waiter) (s : Server)
    → w.id ≡ s.next_id
    → IsWaiting w
    → IsNamed w
    → Inv s
    → Inv (record s { waiting = s.waiting ++ w ∷ []; next_id = suc s.next_id })
enqueued-Inv w s new waits named v =
    let older : (x : Waiter) → x.id < s.next_id → x.id < suc s.next_id = λ x h. omega arith in
    let other : (x : Waiter) → x.id < s.next_id → Apart x w = λ x h. ground arith in
    let others : All (λ x. Apart x w) s.answered =
      All-map _ (λ x. Apart x w) other s.answered v.fresh_answered in
    record {
      fresh =
          All-append _ s.waiting (w ∷ [])
            (All-map _ (λ x. x.id < suc s.next_id) older s.waiting v.fresh) (omega arith, tt);
      fresh_answered = All-map _ (λ x. x.id < suc s.next_id) older s.answered v.fresh_answered;
      apart =
          AllPairs-append Apart s.waiting (w ∷ []) v.apart (tt, tt)
            (All-map _ (λ x. All (Apart x) (w ∷ [])) (λ x h. (other x h, tt)) s.waiting v.fresh);
      waits = All-append IsWaiting s.waiting (w ∷ []) v.waits (waits, tt);
      named = All-append IsNamed s.waiting (w ∷ []) v.named (named, tt);
      gone =
          All-map _ (λ x. All (Apart x) (s.waiting ++ w ∷ []))
            (λ x h. All-append (Apart x) s.waiting (w ∷ []) h.0 (h.1, tt)) s.answered
            (All-zip (λ x. All (Apart x) s.waiting) (λ x. Apart x w) s.answered v.gone others);
      sent = v.sent;
      stored = v.stored;
      roster = v.roster;
    }

pub track_ticket-Inv :
    (st : Setting) (uid : Text) (t : Ticket) (s : Server)
    → NamedTicket t
    → Inv s
    → Inv (track_ticket st uid t s)
unfolding track_ticket
track_ticket-Inv st uid t s (x, path, seg) v =
    let w : Waiter = record {
      id = s.next_id;
      ticket = some t;
      uid = uid;
      out = none;
      depuis = st.now;
    } in
    let s' = record s { waiting = s.waiting ++ w ∷ []; next_id = suc s.next_id } in
    let v' : Inv s' = enqueued-Inv w s refl ((t, refl), refl) (t, x, refl, path, seg) v in
    let cfg = base_config_name t.matchmaking_config in
    if-Inv (leb (seuil_pour_config cfg st.match_size) (length (waiters_for_config cfg s'.waiting)))
      _ s' (form_match-Inv st cfg s' v') v'

revise_config-Inv : (st : Setting) (cfg : Text) (s : Server) → Inv s → Inv (revise_config st cfg s)
unfolding revise_config
revise_config-Inv st cfg s v =
    if-Inv
      (leb (seuil_courant st.now cfg (seuil_pour_config cfg st.match_size) s.waiting).0
        (length (waiters_for_config cfg s.waiting)))
      _ s (form_match-Inv st cfg s v) v

revise_from-Inv :
    (st : ℕ → Setting) (i : ℕ) (cfgs : List Text) (s : Server)
    → Inv s
    → Inv (revise_from st i cfgs s)
unfolding revise_from
revise_from-Inv st i [] s v = v
revise_from-Inv st i (cfg ∷ cfgs) s v =
    revise_from-Inv st (suc i) cfgs (revise_config (st i) cfg s) (revise_config-Inv (st i) cfg s v)

pub revise-Inv : (st : ℕ → Setting) (s : Server) → Inv s → Inv (revise st s)
unfolding revise
revise-Inv st s v = revise_from-Inv st 0 (configs_en_attente s.waiting) s v

All-remove_first :
    (P : Waiter → Type 0) (id : ℕ) (ws : List Waiter) → All P ws → All P (remove_first id ws)
unfolding remove_first
All-remove_first P id [] h = tt
All-remove_first P id (w ∷ ws) h = elim (Bool-cases (w.id == id)) [
  | inl e ↦ rw e h.1
  | inr e ↦ rw e (h.0, All-remove_first P id ws h.1)
]

AllPairs-remove_first :
    (id : ℕ) (ws : List Waiter) → AllPairs Apart ws → AllPairs Apart (remove_first id ws)
unfolding remove_first
AllPairs-remove_first id [] h = tt
AllPairs-remove_first id (w ∷ ws) h = elim (Bool-cases (w.id == id)) [
  | inl e ↦ rw e h.1
  | inr e ↦ rw e (All-remove_first (Apart w) id ws h.0, AllPairs-remove_first id ws h.1)
]

pub leave-Inv : (id : ℕ) (s : Server) → Inv s → Inv (leave id s)
unfolding leave
leave-Inv id s v = record {
  fresh = All-remove_first (λ w. w.id < s.next_id) id s.waiting v.fresh;
  fresh_answered = v.fresh_answered;
  apart = AllPairs-remove_first id s.waiting v.apart;
  waits = All-remove_first IsWaiting id s.waiting v.waits;
  named = All-remove_first IsNamed id s.waiting v.named;
  gone =
      All-map _ _ (λ (u : Waiter) h. All-remove_first (Apart u) id s.waiting h) s.answered v.gone;
  sent = v.sent;
  stored = v.stored;
  roster = v.roster;
}

cancelled-id : (w : Waiter) → (cancelled_waiter w).id ≡ w.id
cancelled-id w = elim (Option-cases w.ticket) [ inl e ↦ rw e | inr (t, e) ↦ rw e ]

cancelled-sent : (w : Waiter) → IsWaiting w → (cancelled_waiter w).out ≢ none
cancelled-sent w ((t, e), o) = rw (e, o) (λ f. cc)

-- What holds of the identities of some waiters holds of those whom their cancelled ticket is sent to.
All-cancelled :
    (P : ℕ → Type 0) (ws : List Waiter)
    → All (λ w. P w.id) ws
    → All (λ w. P w.id) (map cancelled_waiter ws)
All-cancelled P ws h =
    All-of-map (λ w. P w.id) cancelled_waiter ws
      (All-map (λ w. P w.id) (λ w. P (cancelled_waiter w).id)
        (λ w p. subst P (sym (cancelled-id w)) p) ws h)

pub cancel_ticket-Inv : (uid name : Text) (s : Server) → Inv s → Inv (cancel_ticket uid name s)
unfolding cancel_ticket
cancel_ticket-Inv uid name s v =
    let held = holds_ticket (last_seg name) in
    let left : List Waiter = keep (λ w. not (held w)) s.waiting in
    let out : List Waiter = keep held s.waiting in
    record {
      fresh = All-keep _ (λ w. not (held w)) s.waiting v.fresh;
      fresh_answered =
          All-append _ s.answered (map cancelled_waiter out) v.fresh_answered
            (All-cancelled (λ n. n < s.next_id) out (All-keep _ held s.waiting v.fresh));
      apart = AllPairs-keep Apart (λ w. not (held w)) s.waiting v.apart;
      waits = All-keep IsWaiting (λ w. not (held w)) s.waiting v.waits;
      named = All-keep IsNamed (λ w. not (held w)) s.waiting v.named;
      gone =
          All-append (λ u. All (Apart u) left) s.answered (map cancelled_waiter out)
            (All-map _ (λ u. All (Apart u) left)
              (λ u h. All-keep (Apart u) (λ w. not (held w)) s.waiting h) s.answered v.gone)
            (All-cancelled (λ n. All (λ w. (n == w.id) ≡ false) left) out
              (AllPairs-cross Apart held (λ w. not (held w)) (λ w h. rw h) Apart-sym s.waiting
                v.apart));
      sent =
          All-append (λ w. w.out ≢ none) s.answered (map cancelled_waiter out) v.sent
            (All-of-map (λ w. w.out ≢ none) cancelled_waiter out
              (All-map IsWaiting _ cancelled-sent out (All-keep IsWaiting held s.waiting v.waits)));
      stored = λ k t e. stored_erase (last_seg name) s.tickets v.stored k t e;
      roster = v.roster;
    }
