-- ===== src/Search/Bloom/Grams.antt =====
-- The grams that the loop over a term inserts, and those that a query asks for.
use mathlib.Core.List.{append_assoc}
use searchnos_db.Prelude.{
  ℕ, zero, suc, ◌≤◌, leb, Option, none, some, List, [], ◌∷◌, ◌++◌, ◌≡◌, ◌⊎◌, refl, ap, ◌∙◌, arith,
  length, take, inl, inr, Bool-cases, ◌∈◌,
}
use searchnos_db.Search.Terms.{windows}
use searchnos_db.Search.Bloom.{
  as_bytes, insert_bloom_gram, insert_grams_loop, insert_single, insert_search_bloom_term_grams,
  append_search_bloom_grams,
}

-- The grams that the loop inserts, in its order.
abbrev pub pair_grams : Option ℕ → ℕ → List (List ℕ)
pair_grams none c = []
pair_grams (some previous) c = (previous ∷ c ∷ []) ∷ []

abbrev pub triple_grams : Option ℕ → Option ℕ → ℕ → List (List ℕ)
triple_grams (some previous_previous) (some previous) c =
    (previous_previous ∷ previous ∷ c ∷ []) ∷ []
triple_grams _ _ c = []

unfoldable pub loop_grams : Option ℕ → Option ℕ → List ℕ → List (List ℕ)
loop_grams pp p [] = []
loop_grams pp p (c ∷ cs) = pair_grams p c ++ (triple_grams pp p c ++ loop_grams p (some c) cs)

abbrev pub single_grams : List ℕ → List (List ℕ)
single_grams (c ∷ []) = (c ∷ []) ∷ []
single_grams _ = []

unfoldable pub term_grams : List ℕ → List (List ℕ)
term_grams term = loop_grams none none term ++ single_grams term

unfoldable pub insert_grams : List (List ℕ) → List ℕ → List ℕ
insert_grams [] bits = bits
insert_grams (gram ∷ grams) bits = insert_grams grams (insert_bloom_gram bits (as_bytes gram))

pub insert_grams-append :
    (xs ys : List (List ℕ)) (bits : List ℕ)
    → insert_grams (xs ++ ys) bits ≡ insert_grams ys (insert_grams xs bits)
unfolding insert_grams
insert_grams-append [] ys bits = refl
insert_grams-append (x ∷ xs) ys bits =
    insert_grams-append xs ys (insert_bloom_gram bits (as_bytes x))

insert_grams_loop_lem :
    (pp p : Option ℕ) (term bits : List ℕ)
    → insert_grams_loop pp p term bits ≡ insert_grams (loop_grams pp p term) bits
unfolding insert_grams_loop loop_grams insert_grams
insert_grams_loop_lem pp p [] bits = refl
insert_grams_loop_lem none none (c ∷ cs) bits = insert_grams_loop_lem none (some c) cs bits
insert_grams_loop_lem (some a) none (c ∷ cs) bits = insert_grams_loop_lem none (some c) cs bits
insert_grams_loop_lem none (some b) (c ∷ cs) bits = insert_grams_loop_lem (some b) (some c) cs _
insert_grams_loop_lem (some a) (some b) (c ∷ cs) bits = insert_grams_loop_lem (some b) (some c) cs _

insert_single_lem :
    (term bits : List ℕ) → insert_single term bits ≡ insert_grams (single_grams term) bits
unfolding insert_grams
insert_single_lem [] bits = refl
insert_single_lem (c ∷ []) bits = refl
insert_single_lem (c ∷ d ∷ cs) bits = refl

pub insert_search_bloom_term_grams_lem :
    (bits term : List ℕ)
    → insert_search_bloom_term_grams bits term ≡ insert_grams (term_grams term) bits
unfolding insert_search_bloom_term_grams term_grams
insert_search_bloom_term_grams_lem bits term = rw (insert_grams_loop_lem none none term bits) (
    rw (insert_grams-append (loop_grams none none term) (single_grams term) bits)
      (insert_single_lem term (insert_grams (loop_grams none none term) bits)))

module _ {A : Type 0} where
  pub mem-append_left : (x : A) (xs ys : List A) → x ∈ xs → x ∈ (xs ++ ys)
  mem-append_left x [] ys m = elim m [ ]
  mem-append_left x (y ∷ xs) ys (inl e) = inl e
  mem-append_left x (y ∷ xs) ys (inr m) = inr (mem-append_left x xs ys m)

  pub mem-append_right : (x : A) (xs ys : List A) → x ∈ ys → x ∈ (xs ++ ys)
  mem-append_right x [] ys m = m
  mem-append_right x (y ∷ xs) ys m = inr (mem-append_right x xs ys m)

  pub mem-append_cases : (x : A) (xs ys : List A) → x ∈ (xs ++ ys) → (x ∈ xs) ⊎ (x ∈ ys)
  mem-append_cases x [] ys m = inr m
  mem-append_cases x (y ∷ xs) ys (inl e) = inl (inl e)
  mem-append_cases x (y ∷ xs) ys (inr m) = elim (mem-append_cases x xs ys m) [
    | inl left ↦ inl (inr left)
    | inr right ↦ inr right
  ]

-- Past the grams of one character come those of the rest.
mem-loop_grams-rest :
    (gram : List ℕ) (pp p : Option ℕ) (c : ℕ) (cs : List ℕ)
    → gram ∈ loop_grams p (some c) cs
    → gram ∈ loop_grams pp p (c ∷ cs)
unfolding loop_grams
mem-loop_grams-rest gram pp p c cs m =
    mem-append_right gram (pair_grams p c) _ (mem-append_right gram (triple_grams pp p c) _ m)

mem-loop_grams-pair :
    (pp p : Option ℕ) (before : List ℕ) (a b : ℕ) (after : List ℕ)
    → (a ∷ b ∷ []) ∈ loop_grams pp p (before ++ a ∷ b ∷ after)
unfolding loop_grams
mem-loop_grams-pair pp p [] a b after =
    mem-loop_grams-rest (a ∷ b ∷ []) pp p a (b ∷ after) (inl refl)
mem-loop_grams-pair pp p (x ∷ before) a b after =
    mem-loop_grams-rest (a ∷ b ∷ []) pp p x (before ++ a ∷ b ∷ after)
      (mem-loop_grams-pair p (some x) before a b after)

mem-loop_grams-triple :
    (pp p : Option ℕ) (before : List ℕ) (a b c : ℕ) (after : List ℕ)
    → (a ∷ b ∷ c ∷ []) ∈ loop_grams pp p (before ++ a ∷ b ∷ c ∷ after)
unfolding loop_grams
mem-loop_grams-triple pp p [] a b c after =
    mem-loop_grams-rest (a ∷ b ∷ c ∷ []) pp p a (b ∷ c ∷ after)
      (mem-loop_grams-rest (a ∷ b ∷ c ∷ []) p (some a) b (c ∷ after) (inr (inl refl)))
mem-loop_grams-triple pp p (x ∷ before) a b c after =
    mem-loop_grams-rest (a ∷ b ∷ c ∷ []) pp p x (before ++ a ∷ b ∷ c ∷ after)
      (mem-loop_grams-triple p (some x) before a b c after)

-- A window of a text is a piece of it.
windows-source :
    (n : ℕ) (xs gram : List ℕ)
    → gram ∈ windows n xs
    → (before after : List ℕ) × (xs ≡ before ++ (gram ++ after)) × (length gram ≡ n)
unfolding windows
windows-source n [] gram m = elim m [ ]
windows-source n (x ∷ xs) gram m = elim (Bool-cases (leb n (suc (length xs)))) [
  | inr short ↦ absurd (rw short at m)
  | inl fits ↦ elim (rw fits at m) [
    | inl here ↦
        let (after, e, size) = take_parts n (x ∷ xs) (ground arith) in
        ([], after, rw (← here) e, rw (← here) size)
    | inr there ↦
        let (before, after, e, size) = windows-source n xs gram there in
        (x ∷ before, after, ap (λ l. x ∷ l) e, size)
  ]
]
  where
    take_parts :
        (k : ℕ) (ys : List ℕ)
        → k ≤ length ys
        → (after : List ℕ) × (ys ≡ take k ys ++ after) × (length (take k ys) ≡ k)
    take_parts zero ys h = (ys, refl, refl)
    take_parts (suc k) [] h = absurd (omega arith)
    take_parts (suc k) (y ∷ ys) h =
        let (after, e, size) = take_parts k ys (omega arith) in
        (after, ap (λ l. y ∷ l) e, omega arith)

mem-term_grams :
    (n : ℕ) (term before gram after : List ℕ)
    → (n ≡ 2) ⊎ (n ≡ 3)
    → term ≡ before ++ (gram ++ after)
    → length gram ≡ n
    → gram ∈ term_grams term
unfolding term_grams
mem-term_grams n term before [] after h e size = absurd (omega arith)
mem-term_grams n term before (a ∷ []) after h e size = absurd (omega arith)
mem-term_grams n term before (a ∷ b ∷ []) after h e size =
    rw e (
      mem-append_left _ (loop_grams none none _) _ (mem-loop_grams-pair none none before a b after))
mem-term_grams n term before (a ∷ b ∷ c ∷ []) after h e size = rw e (
    mem-append_left _ (loop_grams none none _) _
      (mem-loop_grams-triple none none before a b c after))
mem-term_grams n term before (a ∷ b ∷ c ∷ d ∷ gram) after h e size = absurd (omega arith)

-- The grams of a term of two characters or more are grams of each term that it stands in.
pub append_search_bloom_grams-term_grams :
    (query term before after gram : List ℕ)
    → 2 ≤ length query
    → term ≡ before ++ (query ++ after)
    → gram ∈ append_search_bloom_grams query
    → gram ∈ term_grams term
unfolding append_search_bloom_grams
append_search_bloom_grams-term_grams [] term before after gram h e m = absurd (omega arith)
append_search_bloom_grams-term_grams (c ∷ []) term before after gram h e m = absurd (omega arith)
append_search_bloom_grams-term_grams (c ∷ d ∷ cs) term before after gram h e m =
    elim (mem-append_cases gram (windows 2 (c ∷ d ∷ cs)) (windows 3 (c ∷ d ∷ cs)) m) [
      | inl two ↦
          let (front, back, e', size) = windows-source 2 (c ∷ d ∷ cs) gram two in
          mem-term_grams 2 term (before ++ front) gram (back ++ after) (inl refl)
            (spread front back e') size
      | inr three ↦
          let (front, back, e', size) = windows-source 3 (c ∷ d ∷ cs) gram three in
          mem-term_grams 3 term (before ++ front) gram (back ++ after) (inr refl)
            (spread front back e') size
    ]
  where
    spread :
        (front back : List ℕ)
        → c ∷ d ∷ cs ≡ front ++ (gram ++ back)
        → term ≡ (before ++ front) ++ (gram ++ (back ++ after))
    spread front back e' = e ∙ ap (λ l. before ++ (l ++ after)) e' ∙ simp append_assoc
