-- ===== src/Hostmask/Same.antt =====
-- server/helper.ts: a hostmask against itself.
use thelounge.Common.{ℕ, ◌≡◌, refl, String, List, [], ◌∷◌, codes, ℕ_discrete, true}
use thelounge.Hostmask.{Folding, Hostmask, compare_hostmask, compare_with_wildcard, is_line_end}
use thelounge.Hostmask.Wildcards.{
  Matches, done, star_ends, star_takes, one, same, compare_with_wildcard_iff,
}

Matches-same : (canonicalize : ℕ → ℕ) (cs : List ℕ) → Matches canonicalize cs cs
unfolding is_line_end
Matches-same canonicalize [] = done
Matches-same canonicalize (c ∷ cs) = elim (ℕ_discrete c 42) [
  | yes e ↦ rw e (star_takes refl (star_ends (Matches-same canonicalize cs)))
  | no n ↦ elim (ℕ_discrete c 63) [
    | yes e ↦ rw e (one refl (Matches-same canonicalize cs))
    | no n' ↦ same n n' refl (Matches-same canonicalize cs)
  ]
]

pub compare_with_wildcard-same :
    (folding : Folding) (a : String) → compare_with_wildcard folding a a ≡ true
compare_with_wildcard-same folding a =
    (compare_with_wildcard_iff folding a a).1 (Matches-same folding.canonicalize (codes a))

-- A hostmask, whatever stars it has, stands for itself.
pub compare_hostmask-same :
    (folding : Folding) (mask : Hostmask) → compare_hostmask folding mask mask ≡ true
unfolding compare_hostmask
compare_hostmask-same folding mask =
    rw
      (
        compare_with_wildcard-same folding mask.nick,
        compare_with_wildcard-same folding mask.ident,
        compare_with_wildcard-same folding mask.hostname,
      )
      refl
