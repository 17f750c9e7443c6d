-- ===== src/Base/Orders.antt =====
-- Comparators of the sources: a function of two values whose answer is the sign of a number. A chain
-- of comparators returns at the first that tells its values apart.
use Prim.Native.Nat.{ℕ, compare, Ordering}
use mathlib.Core.Path.{◌≡◌, refl, sym, ap, ◌∙◌}
use mathlib.Core.Bool.{Bool, true, false}
use mathlib.Core.Option.{Option, none, some}
use native.Mathlib.Omega.{arith}

abbrev pub flipped : Ordering → Ordering
flipped Ordering.lt = Ordering.gt
flipped Ordering.eq = Ordering.eq
flipped Ordering.gt = Ordering.lt

-- `if (by !== 0) return by;`, with what follows.
abbrev pub then_by : Ordering → Ordering → Ordering
then_by Ordering.lt later = Ordering.lt
then_by Ordering.eq later = later
then_by Ordering.gt later = Ordering.gt

-- `compare(a, b) <= 0`
abbrev pub not_after : Ordering → Bool
not_after Ordering.lt = true
not_after Ordering.eq = true
not_after Ordering.gt = false

-- A comparator that orders: the answer turns with the arguments, values that it does not tell apart
-- answer alike, and what is strictly before is so transitively.
pub record IsComparator {ℓ} {A : Type ℓ} (f : A → A → Ordering) : Type ℓ where
  pub turns : (a b : A) → f b a ≡ flipped (f a b)
  pub alike : (a b c : A) → f a b ≡ Ordering.eq → f a c ≡ f b c
  pub chains : (a b c : A) → f a b ≡ Ordering.lt → f b c ≡ Ordering.lt → f a c ≡ Ordering.lt

module _ {ℓ} {A : Type ℓ} where
  -- The comparator with its arguments turned round, for an order from the largest.
  abbrev pub descending : (A → A → Ordering) → A → A → Ordering
  descending f a b = f b a

  -- Two comparators in a chain.
  abbrev pub chained : (A → A → Ordering) → (A → A → Ordering) → A → A → Ordering
  chained f g a b = then_by (f a b) (g a b)

  -- With no value last.
  abbrev pub none_last : (A → A → Ordering) → Option A → Option A → Ordering
  none_last f none none = Ordering.eq
  none_last f none (some b) = Ordering.gt
  none_last f (some a) none = Ordering.lt
  none_last f (some a) (some b) = f a b

  -- By a key.
  abbrev pub on_key {κ} : {B : Type κ} → (B → A) → (A → A → Ordering) → B → B → Ordering
  on_key key f a b = f (key a) (key b)

  alike_right :
      {f : A → A → Ordering} → IsComparator f → (a b c : A) → f b c ≡ Ordering.eq → f a b ≡ f a c
  alike_right {f} h a b c e =
      let turned : f b a ≡ f c a = h.alike b c a e in
      h.turns b a ∙ ap flipped turned ∙ sym (h.turns c a)

  pub on_key-IsComparator {κ} :
      {B : Type κ} (key : B → A) (f : A → A → Ordering)
      → IsComparator f
      → IsComparator (on_key key f)
  on_key-IsComparator key f h = record {
    turns = λ a b. h.turns (key a) (key b);
    alike = λ a b c. h.alike (key a) (key b) (key c);
    chains = λ a b c. h.chains (key a) (key b) (key c);
  }

  pub descending-IsComparator :
      (f : A → A → Ordering) → IsComparator f → IsComparator (descending f)
  descending-IsComparator f h = record {
    turns = λ a b. h.turns b a;
    alike = λ a b c e. alike_right h c a b (h.turns b a ∙ ap flipped e);
    chains = λ a b c p q. h.chains c b a q p;
  }

  pub none_last-IsComparator : (f : A → A → Ordering) → IsComparator f → IsComparator (none_last f)
  none_last-IsComparator f h = record { turns = turns'; alike = alike'; chains = chains' }
    where
      turns' : (a b : Option A) → none_last f b a ≡ flipped (none_last f a b)
      turns' none none = refl
      turns' none (some b) = refl
      turns' (some a) none = refl
      turns' (some a) (some b) = h.turns a b

      alike' :
          (a b c : Option A) → none_last f a b ≡ Ordering.eq → none_last f a c ≡ none_last f b c
      alike' none none c e = refl
      alike' none (some b) c e = cc
      alike' (some a) none c e = cc
      alike' (some a) (some b) none e = refl
      alike' (some a) (some b) (some c) e = h.alike a b c e

      chains' :
          (a b c : Option A)
          → none_last f a b ≡ Ordering.lt
          → none_last f b c ≡ Ordering.lt
          → none_last f a c ≡ Ordering.lt
      chains' none none c p q = cc
      chains' none (some b) c p q = cc
      chains' (some a) none none p q = cc
      chains' (some a) none (some c) p q = cc
      chains' (some a) (some b) none p q = refl
      chains' (some a) (some b) (some c) p q = h.chains a b c p q

  module _ (f g : A → A → Ordering) (hf : IsComparator f) (hg : IsComparator g) where
    then_by_eq :
        (p q : Ordering) → then_by p q ≡ Ordering.eq → (p ≡ Ordering.eq) × (q ≡ Ordering.eq)
    then_by_eq Ordering.lt q h = cc
    then_by_eq Ordering.eq q h = (refl, h)
    then_by_eq Ordering.gt q h = cc

    then_by-flipped : (p q : Ordering) → then_by (flipped p) (flipped q) ≡ flipped (then_by p q)
    then_by-flipped Ordering.lt q = refl
    then_by-flipped Ordering.eq q = refl
    then_by-flipped Ordering.gt q = refl

    chained_lt :
        (a b c : A) (p q : Ordering)
        → f a b ≡ p
        → f b c ≡ q
        → then_by p (g a b) ≡ Ordering.lt
        → then_by q (g b c) ≡ Ordering.lt
        → chained f g a c ≡ Ordering.lt
    chained_lt a b c Ordering.lt Ordering.lt ab bc h k = rw (hf.chains a b c ab bc) refl
    chained_lt a b c Ordering.lt Ordering.eq ab bc h k =
        rw (sym (alike_right hf a b c bc) ∙ ab) refl
    chained_lt a b c Ordering.eq Ordering.lt ab bc h k = rw (hf.alike a b c ab ∙ bc) refl
    chained_lt a b c Ordering.eq Ordering.eq ab bc h k =
        rw (hf.alike a b c ab ∙ bc) (hg.chains a b c h k)
    chained_lt a b c Ordering.gt q ab bc h k = cc
    chained_lt a b c Ordering.lt Ordering.gt ab bc h k = cc
    chained_lt a b c Ordering.eq Ordering.gt ab bc h k = cc

    pub chained-IsComparator : IsComparator (chained f g)
    chained-IsComparator = record {
      turns = λ a b. rw (hf.turns a b, hg.turns a b) (then_by-flipped (f a b) (g a b));
      alike = λ a b c e.
          let (ef, eg) = then_by_eq (f a b) (g a b) e in
          rw (hf.alike a b c ef, hg.alike a b c eg) refl;
      chains = λ a b c p q. chained_lt a b c (f a b) (f b c) refl refl p q;
    }

-- A comparator gives the two laws that sorting by it needs.
module _ {ℓ} {A : Type ℓ} (f : A → A → Ordering) (h : IsComparator f) where
  pub comparator_total : (a b : A) → not_after (f a b) ≡ false → not_after (f b a) ≡ true
  comparator_total a b e = rw (h.turns a b) (of (f a b) e)
    where
      of : (o : Ordering) → not_after o ≡ false → not_after (flipped o) ≡ true
      of Ordering.lt e = cc
      of Ordering.eq e = cc
      of Ordering.gt e = refl

  not_after_cases :
      (a b c : A) (p q : Ordering)
      → f a b ≡ p
      → f b c ≡ q
      → not_after p ≡ true
      → not_after q ≡ true
      → not_after (f a c) ≡ true
  not_after_cases a b c Ordering.lt Ordering.lt ab bc x y = rw (h.chains a b c ab bc) refl
  not_after_cases a b c Ordering.lt Ordering.eq ab bc x y =
      rw (sym (alike_right h a b c bc) ∙ ab) refl
  not_after_cases a b c Ordering.eq q ab bc x y = rw (h.alike a b c ab ∙ bc) y
  not_after_cases a b c Ordering.gt q ab bc x y = cc
  not_after_cases a b c Ordering.lt Ordering.gt ab bc x y = cc

  pub comparator_trans :
      (a b c : A) → not_after (f a b) ≡ true → not_after (f b c) ≡ true → not_after (f a c) ≡ true
  comparator_trans a b c x y = not_after_cases a b c (f a b) (f b c) refl refl x y

pub compare_nat-IsComparator : IsComparator {A = ℕ} compare
compare_nat-IsComparator = record {
  turns = λ a b. ground arith;
  alike = λ a b c e. ground arith;
  chains = λ a b c p q. ground arith;
}

abbrev pub is_tie : Ordering → Bool
is_tie Ordering.eq = true
is_tie _ = false
