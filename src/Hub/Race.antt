-- ===== src/Hub/Race.antt =====
-- What goes wrong between the two halves of `Publish`: the recipients are read under the lock, and
-- the sends come after it, when a subscriber may have been closed.
use stackly.Base.{
  ℕ, ◌≡◌, inl, inr, true, false, none, some, List, [], ◌∷◌, Bytes, ◌==◌, ==_iff, Option-cases,
  arith,
}
use stackly.Base.Ids.{has, update}
use stackly.Hub.{
  Event, Subscriber, Hub, subscribers_of, offer, unsubscribe, publish_locked, deliver,
}

-- A closed channel among the recipients is a panic, wherever it stands among them.
deliver-closed :
    (ev : Event) (ids : List ℕ) (id : ℕ) (h : Hub)
    → has id ids ≡ true
    → (h.heap id).closed ≡ true
    → deliver ev ids h ≡ none
unfolding deliver has
deliver-closed ev [] id h m c = cc
deliver-closed ev (i ∷ ids) id h m c = elim (Option-cases (offer ev (h.heap i))) [
  | inl e ↦ rw (e, deliver)
  | inr (s, e) ↦
      rw (e, deliver)
        (deliver-closed ev ids id (record h { heap = update h.heap i s }) (other s e) (still s e))
]
  where
    apart : (s : Subscriber) → offer ev (h.heap i) ≡ some s → (id == i) ≡ false
    apart s e = unfold offer in ground (arith, ==_iff id i)

    other : (s : Subscriber) → offer ev (h.heap i) ≡ some s → has id ids ≡ true
    other s e = ground (arith, apart s e)

    still : (s : Subscriber) → offer ev (h.heap i) ≡ some s → (update h.heap i s id).closed ≡ true
    still s e = ground (arith, apart s e)

-- If a subscriber of the job leaves after `Publish` has given the lock back and before it sends, the
-- send is on a closed channel, so the program panics, whatever the event and the state of the hub.
pub publish_race :
    (job : Bytes) (ev : Event) (id : ℕ) (h : Hub)
    → has id (subscribers_of h job) ≡ true
    → let (locked, recipients) = publish_locked job ev h in
      deliver ev recipients (unsubscribe id locked) ≡ none
unfolding publish_locked unsubscribe
publish_race job ev id h m = deliver-closed ev (subscribers_of h job) id _ m (ground arith)
