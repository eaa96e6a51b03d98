-- ===== src/Rules/Blacklist/Membership.antt =====
-- app/domain/rules/blacklist.py: the blacklist as a set of pairs.
use devflowfix.Base.{◌≡◌, ◌↔◌, refl, true, false, not, ◌&&◌, ◌||◌, List, [], ◌∷◌, ◌++◌, arith}
use devflowfix.Core.Enums.{FailureType, ActionType}
use devflowfix.Rules.Blacklist.{
  Combination, same, contains, add_to_blacklist, remove_from_blacklist, is_blacklisted,
}

same_iff :
    (f g : FailureType) (a b : ActionType) → (same (f, a) (g, b) ≡ true) ↔ ((f ≡ g) × (a ≡ b))
unfolding same
same_iff f g a b = (λ h. ground arith, λ h. ground arith)

contains-nil : (x : Combination) → contains x [] ≡ false
unfolding contains
contains-nil x = refl

contains-cons :
    (x y : Combination) (ys : List Combination) → contains x (y ∷ ys) ≡ (same x y || contains x ys)
unfolding contains
contains-cons x y ys = refl

contains-append :
    (x y : Combination) (ys : List Combination)
    → contains x (ys ++ y ∷ []) ≡ (contains x ys || same x y)
contains-append x y [] = ground (arith, contains-cons x y [], contains-nil x)
contains-append x y (z ∷ ys) =
    ground (arith, contains-append x y ys, contains-cons x z ys, contains-cons x z (ys ++ y ∷ []))

contains-remove :
    (f g : FailureType) (a b : ActionType) (ys : List Combination)
    → contains (g, b) (remove_from_blacklist f a ys)
      ≡ (not (same (g, b) (f, a)) && contains (g, b) ys)
unfolding remove_from_blacklist
contains-remove f g a b [] = ground (arith, contains-nil (g, b))
contains-remove f g a b ((h, d) ∷ ys) = ground (
  arith,
  same_iff g f b a,
  same_iff f h a d,
  same_iff g h b d,
  contains-cons (g, b) (h, d) ys,
  contains-cons (g, b) (h, d) (remove_from_blacklist f a ys),
  contains-remove f g a b ys,
)

-- Adding a pair puts it, and nothing else, on the blacklist; removing it takes it, and nothing else,
-- away, also where it was not there.
is_blacklisted_updates :
    (f g : FailureType) (a b : ActionType) (blacklist : List Combination)
    → (is_blacklisted g b (add_to_blacklist f a blacklist)
        ≡ (same (g, b) (f, a) || is_blacklisted g b blacklist))
      × (is_blacklisted g b (remove_from_blacklist f a blacklist)
          ≡ (not (same (g, b) (f, a)) && is_blacklisted g b blacklist))
unfolding is_blacklisted add_to_blacklist
is_blacklisted_updates f g a b blacklist = (
  ground (arith, contains-append (g, b) (f, a) blacklist, same_iff g f b a),
  contains-remove f g a b blacklist,
)
