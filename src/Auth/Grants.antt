-- ===== src/Auth/Grants.antt =====
-- How many scans the monthly quota of internal/auth/auth.go grants.
use Prim.Native.Nat.{min}
use stackly.Base.{
  ℕ, suc, ◌+◌, ◌-◌, ◌≤◌, ◌<◌, ◌≡◌, refl, inl, inr, Bool, true, false, not, some, List, [], ◌∷◌,
  Bytes, bytes_eq_refl, leb, length, All, if◌then◌else◌, Bool-cases, arith, subst, ◌∙◌,
}
use stackly.Base.Map
use stackly.Base.Map.{get-put}
use stackly.Auth.{User, Users, quota_for_tier}
use stackly.Auth.Calendar.{Zone, next_month_start}
use stackly.Auth.Quota.{
  Reserved, reserved, maybe_reset, is_admin, is_over, check_and_increment_quota,
}

abbrev pub is_reserved : Reserved → Bool
is_reserved (reserved i) = true
is_reserved r = false

-- Calls at a list of times, and how many of them were granted.
unfoldable pub run_checks : Zone → Bytes → List ℕ → Users → Users × ℕ
run_checks z key [] st = (st, 0)
run_checks z key (t ∷ ts) st =
    let r = check_and_increment_quota z t key st in
    let rest = run_checks z key ts r.0 in (rest.0, (if is_reserved r.1 then 1 else 0) + rest.1)

-- One call: the user that it leaves, and whether it was granted.
pub check-user :
    (z : Zone) (now : ℕ) (key : Bytes) (st : Users) (u : User)
    → Map.get key st.users ≡ some u
    → let r = check_and_increment_quota z now key st in
      let v = (maybe_reset z now u).0 in
      (is_reserved r.1 ≡ not (is_over v))
      × (Map.get key r.0.users
          ≡ some (if is_over v then v else record v { scan_count = suc v.scan_count }))
unfolding check_and_increment_quota
check-user z now key st u g = elim (Bool-cases (is_over (maybe_reset z now u).0)) [
  | inl b ↦
      rw (g, b, check_and_increment_quota)
        (refl, get-put key key (maybe_reset z now u).0 st.users ∙ rw (bytes_eq_refl key))
  | inr b ↦
      let v = (maybe_reset z now u).0 in
      rw (g, b, check_and_increment_quota)
        (
          refl,
          get-put key key (record v { scan_count = suc v.scan_count }) st.users
              ∙ rw (bytes_eq_refl key),
        )
]

-- While the month lasts, a user who is not an admin is granted exactly the scans that the quota of the
-- tier leaves, and every call after them is refused.
pub checks_within_month :
    (z : Zone) (key : Bytes) (ts : List ℕ) (st : Users) (u : User)
    → Map.get key st.users ≡ some u
    → is_admin u ≡ false
    → 1 ≤ u.month_reset
    → All (λ t. t ≤ u.month_reset) ts
    → (run_checks z key ts st).1 ≡ min (length ts) (quota_for_tier u.tier - u.scan_count)
unfolding run_checks
checks_within_month z key [] st u g a p h = omega arith
checks_within_month z key (t ∷ ts) st u g a p h =
    let (granted, g') = check-user z t key st u g in
    let same : (maybe_reset z t u).0 ≡ u = unfold maybe_reset in ground (arith, p, h.0) in
    let r = check_and_increment_quota z t key st in
    let granted' : is_reserved r.1 ≡ not (is_over u) =
      subst (λ v. is_reserved r.1 ≡ not (is_over v)) same granted in
    let left : Map.get key r.0.users
        ≡ some (if is_over u then u else record u { scan_count = suc u.scan_count }) =
      subst
        (λ v.
          Map.get key r.0.users
          ≡ some (if is_over v then v else record v { scan_count = suc v.scan_count }))
        same g' in
    let over : is_over u ≡ leb (quota_for_tier u.tier) u.scan_count =
      unfold is_over in rw (a, is_over) in
    elim (Bool-cases (is_over u)) [
      | inl b ↦
          let kept : Map.get key r.0.users ≡ some u =
            subst
              (λ x.
                Map.get key r.0.users
                ≡ some (if x then u else record u { scan_count = suc u.scan_count }))
              b left in
          ground (arith, b, granted', over, checks_within_month z key ts r.0 u kept a p h.1)
      | inr b ↦
          let counted : Map.get key r.0.users ≡ some (record u { scan_count = suc u.scan_count }) =
            subst
              (λ x.
                Map.get key r.0.users
                ≡ some (if x then u else record u { scan_count = suc u.scan_count }))
              b left in
          ground (
            arith,
            b,
            granted',
            over,
            checks_within_month z key ts r.0 (record u { scan_count = suc u.scan_count }) counted a
                p h.1,
          )
    ]

quota_for_tier-pos : (tier : Bytes) → 1 ≤ quota_for_tier tier
unfolding quota_for_tier
quota_for_tier-pos tier = ground arith

-- At an instant at which the month start that `nextMonthStart` computes in the server's zone is
-- already past, a user of the store whose reset time is past is granted every call, however many
-- there are.
pub checks_without_limit :
    (z : Zone) (key : Bytes) (now : ℕ) (ts : List ℕ) (st : Users) (u : User)
    → next_month_start z now < now
    → Map.get key st.users ≡ some u
    → u.month_reset < now
    → All (λ t. t ≡ now) ts
    → (run_checks z key ts st).1 ≡ length ts
unfolding run_checks
checks_without_limit z key now [] st u w g r h = refl
checks_without_limit z key now (t ∷ ts) st u w g r h = rw (h.0) (
    go (λ st' v g' r'. checks_without_limit z key now ts st' v w g' r' h.1)
      (check_and_increment_quota z now key st) (check-user z now key st u g))
  where
    fresh : User
    fresh = record u { scan_count = 0; month_reset = next_month_start z now }

    reset : (maybe_reset z now u).0 ≡ fresh
    reset = unfold maybe_reset in ground (arith, r)

    free : is_over fresh ≡ false
    free = unfold is_over in ground (arith, quota_for_tier-pos u.tier)

    go :
        ((st' : Users) (v : User)
          → Map.get key st'.users ≡ some v
          → v.month_reset < now
          → (run_checks z key ts st').1 ≡ length ts)
        → (c : Users × Reserved)
        → (let v = (maybe_reset z now u).0 in
            (is_reserved c.1 ≡ not (is_over v))
            × (Map.get key c.0.users
                ≡ some (if is_over v then v else record v { scan_count = suc v.scan_count })))
        → (if is_reserved c.1 then 1 else 0) + (run_checks z key ts c.0).1 ≡ suc (length ts)
    go again c q =
        let q' : (is_reserved c.1 ≡ true)
            × (Map.get key c.0.users ≡ some (record fresh { scan_count = 1 })) =
          subst
            (λ x.
              (is_reserved c.1 ≡ not x)
              × (Map.get key c.0.users
                  ≡ some (if x then fresh else record fresh { scan_count = suc fresh.scan_count })))
            free
            (subst
              (λ v.
                (is_reserved c.1 ≡ not (is_over v))
                × (Map.get key c.0.users
                    ≡ some (if is_over v then v else record v { scan_count = suc v.scan_count })))
              reset q) in
        let ih = again c.0 (record fresh { scan_count = 1 }) q'.1 w in rw (q'.0) (omega (arith, ih))
