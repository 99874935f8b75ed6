-- ===== src/Scanner/Rotation.antt =====
-- The user agents of internal/scanner in turn.
use native.Mathlib.Nat.{mod-add-mod, mod-lt}
use stackly.Base.{
  ℕ, zero, suc, ◌+◌, ◌%◌, ◌<◌, ◌≡◌, ◌≢◌, refl, ap, Option, none, some, List, [], ◌∷◌, Bytes, length,
  Option-cases, inl, inr, arith,
}
use stackly.Scanner.Agents.{UserAgentPool, get_elem?, next}

pub get_elem?-some :
    (xs : List Bytes) (n : ℕ) → n < length xs → (x : Bytes) × (get_elem? xs n ≡ some x)
unfolding get_elem?
get_elem?-some [] n h = absurd (omega arith)
get_elem?-some (x ∷ xs) zero h = (x, refl)
get_elem?-some (x ∷ xs) (suc n) h = get_elem?-some xs n (omega arith)

-- The agents that `n` calls return; `none` if one of them panics.
abbrev pub prepend : Option Bytes → Option (List Bytes) → Option (List Bytes)
prepend none rest = none
prepend (some ua) none = none
prepend (some ua) (some uas) = some (ua ∷ uas)

abbrev after :
    Option (Bytes × UserAgentPool) → (UserAgentPool → Option (List Bytes)) → Option (List Bytes)
after none rest = none
after (some (ua, q)) rest = prepend (some ua) (rest q)

unfoldable pub draw : ℕ → UserAgentPool → Option (List Bytes)
draw zero p = some []
draw (suc n) p = after (next p) (draw n)

next-some :
    (p : UserAgentPool) (ua : Bytes)
    → get_elem? p.agents p.index ≡ some ua
    → next p ≡ some (ua, record p { index = (p.index + 1) % length p.agents })
unfolding next
next-some p ua e = rw (e, next) refl

-- The agents at `n` places in a row, from place `i` on, counted round and round.
unfoldable pub turns : ℕ → ℕ → List Bytes → Option (List Bytes)
turns zero i agents = some []
turns (suc n) i agents = prepend (get_elem? agents (i % length agents)) (turns n (i + 1) agents)

-- `Next` hands the agents of a pool out in turn, and begins again after the last; as long as the
-- pool has an agent, it never panics.
pub next-cycles :
    (n i : ℕ) (agents : List Bytes)
    → 0 < length agents
    → (draw n (record { agents = agents; index = i % length agents }) ≡ turns n i agents)
      × (turns n i agents ≢ none)
unfolding draw turns
next-cycles zero i agents h = (refl, λ e. cc)
next-cycles (suc n) i agents h =
    let (ua, e) = get_elem?-some agents (i % length agents) (mod-lt i h) in
    let step : (i % length agents + 1) % length agents ≡ (i + 1) % length agents =
      mod-add-mod i (length agents) 1 in
    let (same, total) = next-cycles n (i + 1) agents h in
    (
      rw (next-some (record { agents = agents; index = i % length agents }) ua e, e)
          (ap (prepend (some ua)) (rw step same)),
      elim (Option-cases (turns n (i + 1) agents)) [
        | inl none_left ↦ absurd (total none_left)
        | inr (uas, e') ↦
            λ stopped. let impossible : some (ua ∷ uas) ≡ none = rw (e, e') at stopped in cc
      ],
    )
