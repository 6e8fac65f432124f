-- ===== src/Bgp/Decision/Sorting.antt =====
-- The sorted `as_list`: it holds the same texts, and equal texts stand together.
use ixp_irc.Prelude.{
  zero, suc, ◌≤◌, true, false, List, [], ◌∷◌, ◌++◌, length, ◌≡◌, refl, sym, ap, ◌∙◌, arith,
  Bool-cases, inl, inr, In, All, In-All, list_beq_iff, either, nat_eq, list_eq, ◌==◌,
}
use ixp_irc.Bgp.Text.{Text}
use ixp_irc.Bgp.Decision.{text_lt, insert_text, sort, count}
use ixp_irc.Bgp.Decision.Order.{text_lt_ntrans, text_eq_of_not_lt, text_lt_asym}

-- No text is less than one before it.
abbrev pub Sorted : List Text → Type 0
Sorted [] = Unit
Sorted (a ∷ l) = All (λ b. text_lt b a ≡ false) l × Sorted l

All-insert_text :
    (P : Text → Type 0) (a : Text) (l : List Text) → P a → All P l → All P (insert_text a l)
unfolding insert_text
All-insert_text P a [] p h = (p, tt)
All-insert_text P a (b ∷ l) p h = elim (Bool-cases (text_lt b a)) [
  | inl t ↦ rw t (h.0, All-insert_text P a l p h.1)
  | inr f ↦ rw f (p, (h.0, h.1))
]

All-le_trans :
    (a b : Text) (l : List Text)
    → text_lt b a ≡ false
    → All (λ c. text_lt c b ≡ false) l
    → All (λ c. text_lt c a ≡ false) l
All-le_trans a b [] h k = tt
All-le_trans a b (c ∷ l) h k = (text_lt_ntrans a b c h k.0, All-le_trans a b l h k.1)

insert_text-Sorted : (a : Text) (l : List Text) → Sorted l → Sorted (insert_text a l)
unfolding insert_text
insert_text-Sorted a [] s = (tt, tt)
insert_text-Sorted a (b ∷ l) s = elim (Bool-cases (text_lt b a)) [
  | inl t ↦ rw t (
    All-insert_text (λ c. text_lt c b ≡ false) a l (text_lt_asym b a t) s.0,
    insert_text-Sorted a l s.1,
  )
  | inr f ↦ rw f ((f, All-le_trans a b l f s.0), s)
]

pub sort-Sorted : (l : List Text) → Sorted (sort l)
unfolding sort
sort-Sorted [] = tt
sort-Sorted (a ∷ l) = insert_text-Sorted a (sort l) (sort-Sorted l)

count-insert_text : (c a : Text) (l : List Text) → count c (insert_text a l) ≡ count c (a ∷ l)
unfolding count insert_text
count-insert_text c a [] = refl
count-insert_text c a (b ∷ l) = elim (Bool-cases (text_lt b a)) [
  | inl t ↦ rw t (omega (arith, count-insert_text c a l))
  | inr f ↦ rw f
]

pub count-sort : (c : Text) (l : List Text) → count c (sort l) ≡ count c l
unfolding count sort
count-sort c [] = refl
count-sort c (a ∷ l) = count-insert_text c a (sort l) ∙ omega (arith, count-sort c l)

length-insert_text : (a : Text) (l : List Text) → length (insert_text a l) ≡ suc (length l)
unfolding insert_text
length-insert_text a [] = refl
length-insert_text a (b ∷ l) = elim (Bool-cases (text_lt b a)) [
  | inl t ↦ rw t (ap suc (length-insert_text a l))
  | inr f ↦ rw f
]

pub length-sort : (l : List Text) → length (sort l) ≡ length l
unfolding sort
length-sort [] = refl
length-sort (a ∷ l) = length-insert_text a (sort l) ∙ ap suc (length-sort l)

-- A text occurs exactly if it is counted.
pub count-zero : (a : Text) (l : List Text) → (In a l → ⊥) → count a l ≡ 0
unfolding count
count-zero a [] h = refl
count-zero a (b ∷ l) h =
    let differ : ((b ≡ a) → ⊥) = λ q. h (inl (sym q)) in
    ground (arith, list_beq_iff b a, count-zero a l (λ i. h (inr i)))

pub count-pos : (a : Text) (l : List Text) → In a l → suc zero ≤ count a l
unfolding count
count-pos a [] i = absurd i
count-pos a (b ∷ l) (inl q) = ground (arith, list_beq_iff b a)
count-pos a (b ∷ l) (inr i) = omega (arith, count-pos a l i)

pub In-of_count : (a : Text) (l : List Text) → suc zero ≤ count a l → In a l
unfolding count
In-of_count a [] h = absurd (omega arith)
In-of_count a (b ∷ l) h = elim (Bool-cases (b == a)) [
  | inl t ↦ inl (sym ((list_beq_iff b a).0 t))
  | inr f ↦ inr (In-of_count a l (ground arith))
]

-- The texts equal to `a` stand in front.
pub record Block (a : Text) (l : List Text) : Type 0 where
  pub block : List Text
  pub rest : List Text
  pub split : l ≡ block ++ rest
  pub size : length block ≡ count a l
  pub equal : (b : Text) → In b block → b ≡ a
  pub absent : In a rest → ⊥
  pub sorted : Sorted rest

pub Sorted-Block :
    (a : Text) (l : List Text) → All (λ b. text_lt b a ≡ false) l → Sorted l → Block a l
unfolding count
Sorted-Block a [] h s = record {
  block = [];
  rest = [];
  split = refl;
  size = refl;
  equal = λ b i. absurd i;
  absent = λ i. i;
  sorted = tt;
}
Sorted-Block a (b ∷ l) h s = elim (Bool-cases (b == a)) [
  | inl t ↦ more t (Sorted-Block a l h.1 s.1)
  | inr f ↦ record {
    block = [];
    rest = b ∷ l;
    split = refl;
    size = sym (count-zero a (b ∷ l) (none_left f));
    equal = λ c i. absurd i;
    absent = none_left f;
    sorted = s;
  }
]
  where
    more : (b == a) ≡ true → Block a l → Block a (b ∷ l)
    more t r = record {
      block = b ∷ r.block;
      rest = r.rest;
      split = ap (◌∷◌ b) r.split;
      size = rw t (omega (arith, r.size));
      equal = λ c i. either (λ q. q ∙ (list_beq_iff b a).0 t) (r.equal c) i;
      absent = r.absent;
      sorted = r.sorted;
    }

    none_left : (b == a) ≡ false → In a (b ∷ l) → ⊥
    none_left f (inl q) = cc (f, (list_beq_iff b a).1 (sym q))
    none_left f (inr i) = cc (
      f,
      (list_beq_iff b a).1
          (text_eq_of_not_lt b a h.0 (In-All (λ c. text_lt c b ≡ false) a l s.0 i)),
    )
