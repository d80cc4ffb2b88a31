-- ===== src/Broker/Dict.antt =====
-- The dict of states: distinct ids, lookups after a change, and what holds of each state.
use liminal_osai.Prelude.{
  String, ◌≡◌, refl, sym, subst, ◌∙◌, inl, inr, Bool, true, false, Bool-cases, List, [], ◌∷◌, ◌++◌,
  none, some, ◌==◌, keep, eq_iff, eq_refl, arith, if◌then◌else◌, All, str_leb,
}
use liminal_osai.Broker.State.{
  CapabilityState, find_state, replace_state, insert_state, sort_states,
}

abbrev pub id_of : CapabilityState → String
id_of s = s.contract.capability_id

-- no state of the list has this id
abbrev pub IsFresh : String → List CapabilityState → Type 0
IsFresh id ss = All (λ t. (id_of t == id) ≡ false) ss

abbrev pub IsUnique : List CapabilityState → Type 0
IsUnique [] = Unit
IsUnique (s ∷ ss) = IsFresh (id_of s) ss × IsUnique ss

pub find_state-id :
    (id : String) (ss : List CapabilityState) (s : CapabilityState)
    → find_state id ss ≡ some s
    → id_of s ≡ id
find_state-id id [] s h = cc
find_state-id id (t ∷ ss) s h = ground (arith, eq_iff (id_of t) id, find_state-id id ss s)

pub find-IsFresh :
    (id : String) (ss : List CapabilityState) → find_state id ss ≡ none → IsFresh id ss
find-IsFresh id [] h = tt
find-IsFresh id (t ∷ ss) h = (ground arith, find-IsFresh id ss (ground arith))

module _ (id : String) (new : CapabilityState) (same : id_of new ≡ id) where
  replace-IsFresh :
      (j : String) (ss : List CapabilityState) → IsFresh j ss → IsFresh j (replace_state id new ss)
  replace-IsFresh j [] f = tt
  replace-IsFresh j (t ∷ ss) (f, fs) = elim (Bool-cases (id_of t == id)) [
    | inl hit ↦ rw hit (ground (arith, eq_iff (id_of t) id), fs)
    | inr miss ↦ rw miss (f, replace-IsFresh j ss fs)
  ]

  pub replace-IsUnique :
      (ss : List CapabilityState) → IsUnique ss → IsUnique (replace_state id new ss)
  replace-IsUnique [] u = tt
  replace-IsUnique (t ∷ ss) (f, u) = elim (Bool-cases (id_of t == id)) [
    | inl hit ↦
        let e : id_of t ≡ id_of new = (eq_iff (id_of t) id).0 hit ∙ sym same in
        rw hit (subst (λ j. IsFresh j ss) e f, u)
    | inr miss ↦ rw miss (replace-IsFresh (id_of t) ss f, replace-IsUnique ss u)
  ]

  pub find-replace_same :
      (ss : List CapabilityState) (s : CapabilityState)
      → find_state id ss ≡ some s
      → find_state id (replace_state id new ss) ≡ some new
  find-replace_same [] s h = cc
  find-replace_same (t ∷ ss) s h = ground (arith, eq_iff (id_of new) id, find-replace_same ss s)

  pub find-replace_other :
      (j : String) (ss : List CapabilityState)
      → (id == j) ≡ false
      → find_state j (replace_state id new ss) ≡ find_state j ss
  find-replace_other j [] n = refl
  find-replace_other j (t ∷ ss) n = ground (arith, eq_iff (id_of t) id, find-replace_other j ss)

IsFresh-append :
    (j : String) (ss : List CapabilityState) (s : CapabilityState)
    → IsFresh j ss
    → (id_of s == j) ≡ false
    → IsFresh j (ss ++ s ∷ [])
IsFresh-append j [] s f n = (n, tt)
IsFresh-append j (t ∷ ss) s (f, fs) n = (f, IsFresh-append j ss s fs n)

pub ==_sym-false : (a b : String) → (a == b) ≡ false → (b == a) ≡ false
==_sym-false a b h = ground (arith, eq_iff a b, eq_iff b a)

pub IsUnique-append :
    (ss : List CapabilityState) (s : CapabilityState)
    → IsUnique ss
    → IsFresh (id_of s) ss
    → IsUnique (ss ++ s ∷ [])
IsUnique-append [] s u f = (tt, tt)
IsUnique-append (t ∷ ss) s (g, u) (f, fs) =
    (IsFresh-append (id_of t) ss s g (==_sym-false _ _ f), IsUnique-append ss s u fs)

pub find-append :
    (id : String) (ss : List CapabilityState) (new s : CapabilityState)
    → find_state id ss ≡ some s
    → find_state id (ss ++ new ∷ []) ≡ some s
find-append id [] new s h = cc
find-append id (t ∷ ss) new s h = ground (arith, find-append id ss new s)

pub find-append_none :
    (id : String) (ss : List CapabilityState) (new : CapabilityState)
    → find_state id ss ≡ none
    → find_state id (ss ++ new ∷ []) ≡ find_state id (new ∷ [])
find-append_none id [] new h = refl
find-append_none id (t ∷ ss) new h = ground (arith, find-append_none id ss new)

-- In a list of distinct ids each state is found under its id.
abbrev pub IsFound : List CapabilityState → CapabilityState → Type 0
IsFound all s = find_state (id_of s) all ≡ some s

fresh-skip :
    (t : CapabilityState) (all ss : List CapabilityState)
    → IsFresh (id_of t) ss
    → All (IsFound all) ss
    → All (IsFound (t ∷ all)) ss
fresh-skip t all [] f a = tt
fresh-skip t all (s ∷ ss) (f, fs) (a, rest) =
    (rw (==_sym-false _ _ f) a, fresh-skip t all ss fs rest)

pub unique-IsFound : (ss : List CapabilityState) → IsUnique ss → All (IsFound ss) ss
unique-IsFound [] u = tt
unique-IsFound (t ∷ ss) (f, u) =
    (rw (eq_refl (id_of t)) refl, fresh-skip t ss ss f (unique-IsFound ss u))

-- What holds of the states of a list holds after `keep`, the sort and a change.
module _ (P : CapabilityState → Type 0) where
  All-if :
      (c : Bool) (ss ts : List CapabilityState) → All P ss → All P ts → All P (if c then ss else ts)
  All-if true ss ts a b = a
  All-if false ss ts a b = b

  pub All-keep :
      (p : CapabilityState → Bool) (ss : List CapabilityState) → All P ss → All P (keep p ss)
  All-keep p [] a = tt
  All-keep p (s ∷ ss) (a, rest) = let kept = All-keep p ss rest in one (p s) (a, kept) kept
    where
      one :
          (b : Bool)
          → All P (s ∷ keep p ss)
          → All P (keep p ss)
          → All P (elim b [ true ↦ s ∷ keep p ss | false ↦ keep p ss ])
      one true x y = x
      one false x y = y

  All-insert :
      (s : CapabilityState) (ss : List CapabilityState) → P s → All P ss → All P (insert_state s ss)
  All-insert s [] h a = (h, tt)
  All-insert s (t ∷ ss) h (a, rest) =
      All-if (str_leb (id_of s) (id_of t)) (s ∷ t ∷ ss) (t ∷ insert_state s ss) (h, (a, rest))
        (a, All-insert s ss h rest)

  pub All-sort : (ss : List CapabilityState) → All P ss → All P (sort_states ss)
  All-sort [] a = tt
  All-sort (s ∷ ss) (a, rest) = All-insert s (sort_states ss) a (All-sort ss rest)

  All-insert_back :
      (s : CapabilityState) (ss : List CapabilityState) → All P (insert_state s ss) → P s × All P ss
  All-insert_back s [] a = a
  All-insert_back s (t ∷ ss) a = one (str_leb (id_of s) (id_of t)) a (All-insert_back s ss)
    where
      one :
          (b : Bool)
          → All P (if b then s ∷ t ∷ ss else t ∷ insert_state s ss)
          → (All P (insert_state s ss) → P s × All P ss)
          → P s × All P (t ∷ ss)
      one true (x, y) back = (x, y)
      one false (x, y) back = let (z, w) = back y in (z, (x, w))

  pub All-sort_back : (ss : List CapabilityState) → All P (sort_states ss) → All P ss
  All-sort_back [] a = tt
  All-sort_back (s ∷ ss) a =
      let (x, rest) = All-insert_back s (sort_states ss) a in (x, All-sort_back ss rest)

  pub All-replace :
      (id : String) (new : CapabilityState) (ss : List CapabilityState)
      → P new
      → All P ss
      → All P (replace_state id new ss)
  All-replace id new [] h a = tt
  All-replace id new (s ∷ ss) h (a, rest) =
      All-if (id_of s == id) (new ∷ ss) (s ∷ replace_state id new ss) (h, rest)
        (a, All-replace id new ss h rest)

  pub All-append_one :
      (ss : List CapabilityState) (s : CapabilityState) → All P ss → P s → All P (ss ++ s ∷ [])
  All-append_one [] s a h = (h, tt)
  All-append_one (t ∷ ss) s (a, rest) h = (a, All-append_one ss s rest h)

  pub All-find :
      (id : String) (ss : List CapabilityState) (s : CapabilityState)
      → All P ss
      → find_state id ss ≡ some s
      → P s
  All-find id [] s a h = absurd cc
  All-find id (t ∷ ss) s (a, rest) h = elim (Bool-cases (id_of t == id)) [
    | inl e ↦ subst P (ground arith) a
    | inr e ↦ All-find id ss s rest (ground arith)
  ]

-- The sort keeps the ids distinct.
IsUnique-insert :
    (s : CapabilityState) (ss : List CapabilityState)
    → IsFresh (id_of s) ss
    → IsUnique ss
    → IsUnique (insert_state s ss)
IsUnique-insert s [] f u = (tt, tt)
IsUnique-insert s (t ∷ ss) (f, fs) (g, u) = elim (Bool-cases (str_leb (id_of s) (id_of t))) [
  | inl e ↦ rw e ((f, fs), (g, u))
  | inr e ↦ rw e (
    All-insert (λ x. (id_of x == id_of t) ≡ false) s ss (==_sym-false _ _ f) g,
    IsUnique-insert s ss fs u,
  )
]

pub IsUnique-sort : (ss : List CapabilityState) → IsUnique ss → IsUnique (sort_states ss)
IsUnique-sort [] u = tt
IsUnique-sort (s ∷ ss) (f, u) =
    IsUnique-insert s (sort_states ss) (All-sort (λ x. (id_of x == id_of s) ≡ false) ss f)
      (IsUnique-sort ss u)
