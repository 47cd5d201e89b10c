-- ===== src/Core/Commute/Groups.antt =====
-- commute.ts, detectConflicts: the grouping of the commitments by their members.
use nestai.Prelude.{
  ◌≡◌, refl, sym, ap, ◌∙◌, inl, inr, Bool, true, false, List, [], ◌∷◌, ◌++◌, String, arith,
  Bool-cases, str_eq, eq_iff, filter, if◌then◌else◌,
}
use nestai.Core.Commute.{LogisticsCommitment, Groups, push, group}

-- The commitments in the group of a member.
unfoldable pub members_of : String → Groups → List LogisticsCommitment
members_of id [] = []
members_of id ((k, list) ∷ groups) = if str_eq k id then list else members_of id groups

abbrev pub is_of : String → LogisticsCommitment → Bool
is_of id c = str_eq c.member_id id

pub append_assoc : {A : Type 0} (xs ys zs : List A) → (xs ++ ys) ++ zs ≡ xs ++ (ys ++ zs)
append_assoc [] ys zs = refl
append_assoc (x ∷ xs) ys zs = ap (λ l. x ∷ l) (append_assoc xs ys zs)

pub append-empty : {A : Type 0} (xs : List A) → xs ++ [] ≡ xs
append-empty [] = refl
append-empty (x ∷ xs) = ap (λ l. x ∷ l) (append-empty xs)

members_of-push :
    (id : String) (c : LogisticsCommitment) (groups : Groups)
    → members_of id (push c groups)
      ≡ members_of id groups ++ (if str_eq c.member_id id then c ∷ [] else [])
unfolding members_of push
members_of-push id c [] = ground arith
members_of-push id c ((k, list) ∷ groups) = elim (Bool-cases (str_eq k id)) [
  | inl e ↦ elim (Bool-cases (str_eq k c.member_id)) [
    | inl f ↦
        let named : str_eq c.member_id id ≡ true =
          ground (arith, eq_iff k id, eq_iff k c.member_id, eq_iff c.member_id id) in
        rw (f, e, named) refl
    | inr f ↦
        let other : str_eq c.member_id id ≡ false =
          ground (arith, eq_iff k id, eq_iff k c.member_id, eq_iff c.member_id id) in
        rw (f, e, other) (sym (append-empty list))
  ]
  | inr e ↦ elim (Bool-cases (str_eq k c.member_id)) [
    | inl f ↦
        let other : str_eq c.member_id id ≡ false =
          ground (arith, eq_iff k id, eq_iff k c.member_id, eq_iff c.member_id id) in
        rw (f, e, other) (sym (append-empty (members_of id groups)))
    | inr f ↦ rw (f, e) (members_of-push id c groups)
  ]
]

group-members_of :
    (id : String) (cs : List LogisticsCommitment) (groups : Groups)
    → members_of id (group cs groups) ≡ members_of id groups ++ filter (is_of id) cs
unfolding group
group-members_of id [] groups = sym (append-empty (members_of id groups))
group-members_of id (c ∷ cs) groups =
    group-members_of id cs (push c groups)
    ∙ ap (λ l. l ++ filter (is_of id) cs) (members_of-push id c groups)
    ∙ append_assoc (members_of id groups) (if str_eq c.member_id id then c ∷ [] else [])
        (filter (is_of id) cs)
    ∙ ap (λ l. members_of id groups ++ l)
        (elim (Bool-cases (str_eq c.member_id id)) [ inl e ↦ rw e refl | inr e ↦ rw e refl ])

-- The group of a member holds the member's commitments, in their order.
pub group-filter :
    (id : String) (cs : List LogisticsCommitment)
    → members_of id (group cs []) ≡ filter (is_of id) cs
unfolding members_of
group-filter id cs = group-members_of id cs []
