-- ===== src/Workflow/Matrix/Axes.antt =====
-- The search with its early cuts gives the combinations that are not excluded, in order.
use open_actions.Base.{
  ◌≤◌, String, Bool, true, false, not, ◌≡◌, ◌⊎◌, inl, inr, refl, sym, ap, ◌∙◌, arith, List, [], ◌∷◌,
  ◌++◌, any, all, keep, length, length-append, ltb, eq_iff, ◌==◌, Bool-cases, if◌then◌else◌,
}
use open_actions.Base.Dict.{mem, lookup, insert, lookup-insert}
use open_actions.Base.Result.{Result, ok, err, ◌>>=◌}
use open_actions.Base.Sorting.{sort_texts, insert_text, mem-insert_text, mem-sort_texts}
use open_actions.Workflow.Matrix.{
  Entry, MatrixError, too_many_jobs, max_matrix_jobs, has_value, entry_matches_any, is_assigned,
  partial_match_any, values_at, add_combination, visit_values, visit, names_of,
}
use open_actions.Workflow.Value.{Value}
use mathlib.Core.List.{Memᴰ, append_assoc, append-nil}

any_mono {ℓ} :
    {A : Type ℓ} (p q : A → Bool) (xs : List A)
    → ((x : A) → p x ≡ true → q x ≡ true)
    → any p xs ≡ true
    → any q xs ≡ true
any_mono p q [] h e = e
any_mono p q (x ∷ xs) h e = ground (arith, h x, any_mono p q xs h)

all_mono {ℓ} :
    {A : Type ℓ} (p q : A → Bool) (xs : List A)
    → ((x : A) → p x ≡ true → q x ≡ true)
    → all p xs ≡ true
    → all q xs ≡ true
all_mono p q [] h e = e
all_mono p q (x ∷ xs) h e = ground (arith, h x, all_mono p q xs h)

keep-append {ℓ} :
    {A : Type ℓ} (p : A → Bool) (xs ys : List A) → keep p (xs ++ ys) ≡ keep p xs ++ keep p ys
keep-append p [] ys = refl
keep-append p (x ∷ xs) ys = ground (arith, keep-append p xs ys)

keep-none {ℓ} :
    {A : Type ℓ} (p : A → Bool) (xs : List A) → ((x : A) → Memᴰ x xs → p x ≡ false) → keep p xs ≡ []
keep-none p [] h = refl
keep-none p (x ∷ xs) h =
    ground (arith, h x (Memᴰ.head refl), keep-none p xs (λ y m. h y (Memᴰ.tail m)))

-- At most 256 combinations.
abbrev pub bounded : List Entry → Result MatrixError (List Entry)
bounded cs = if ltb max_matrix_jobs (length cs) then err too_many_jobs else ok cs

-- No name stands twice.
abbrev pub AreDistinct : List String → Type 0
AreDistinct [] = Unit
AreDistinct (n ∷ ns) = (mem n ns ≡ false) × AreDistinct ns

insert_text-AreDistinct :
    (n : String) (ns : List String)
    → mem n ns ≡ false
    → AreDistinct ns
    → AreDistinct (insert_text n ns)
unfolding insert_text
insert_text-AreDistinct n [] new d = (refl, tt)
insert_text-AreDistinct n (x ∷ ns) new (other, d) =
    ground (arith, eq_iff n x, eq_iff x n, insert_text-AreDistinct n ns, mem-insert_text x n ns)

pub sort_texts-AreDistinct : (ns : List String) → AreDistinct ns → AreDistinct (sort_texts ns)
unfolding sort_texts
sort_texts-AreDistinct [] d = d
sort_texts-AreDistinct (n ∷ ns) (new, d) =
    insert_text-AreDistinct n (sort_texts ns) (mem-sort_texts n ns ∙ new)
      (sort_texts-AreDistinct ns d)

module _ (axes : List (String × List Value)) (exclude : List Entry) where
  unfoldable pub product_values : (Entry → List Entry) → String → List Value → Entry → List Entry
  product_values next name [] values = []
  product_values next name (v ∷ vs) values =
      next (insert name v values) ++ product_values next name vs values

  -- Every choice of a value for each axis, in the order of the axes and of their values.
  unfoldable pub product : List String → Entry → List Entry
  unfolding product_values
  product [] values = values ∷ []
  product (name ∷ names) values = product_values (product names) name (values_at axes name) values

  -- Those that are not excluded.
  abbrev pub wanted : List Entry → List Entry
  wanted cs = keep (λ c. not (entry_matches_any c exclude)) cs

  append-cases : (xs ys : List Entry) (c : Entry) → Memᴰ c (xs ++ ys) → Memᴰ c xs ⊎ Memᴰ c ys
  append-cases [] ys c m = inr m
  append-cases (x ∷ xs) ys c (Memᴰ.head h) = inl (Memᴰ.head h)
  append-cases (x ∷ xs) ys c (Memᴰ.tail t) = elim (append-cases xs ys c t) [
    | inl first ↦ inl (Memᴰ.tail first)
    | inr later ↦ inr later
  ]

  -- What is assigned stays.
  product_values-keeps :
      (next : Entry → List Entry) (name k : String) (vs : List Value) (values c : Entry)
      → ((w d : Entry) → Memᴰ d (next w) → lookup k d ≡ lookup k w)
      → name == k ≡ false
      → Memᴰ c (product_values next name vs values)
      → lookup k c ≡ lookup k values
  unfolding product_values
  product_values-keeps next name k [] values c h other m = elim m [ ]
  product_values-keeps next name k (v ∷ vs) values c h other m =
      elim (append-cases (next (insert name v values)) _ c m) [
        | inl now ↦ h (insert name v values) c now ∙ lookup-insert values name k v ∙ rw other refl
        | inr later ↦ product_values-keeps next name k vs values c h other later
      ]

  product-keeps :
      (names : List String) (k : String) (values c : Entry)
      → mem k names ≡ false
      → Memᴰ c (product names values)
      → lookup k c ≡ lookup k values
  unfolding product
  product-keeps [] k values c free (Memᴰ.head h) = rw h refl
  product-keeps [] k values c free (Memᴰ.tail m) = elim m [ ]
  product-keeps (name ∷ names) k values c free m =
      product_values-keeps (product names) name k (values_at axes name) values c
        (λ w d at. product-keeps names k w d (ground arith) at)
        (ground (arith, eq_iff k name, eq_iff name k)) m

  has_value-assigned :
      (values c : Entry) (assigned : List String) (f : String × Value)
      → (mem f.0 assigned ≡ true → lookup f.0 c ≡ lookup f.0 values)
      → is_assigned values assigned f ≡ true
      → has_value c f ≡ true
  has_value-assigned values c assigned (name, value) same h =
      let at : mem name assigned ≡ true = ground arith in ground (arith, same at)

  -- A cut loses nothing.
  cut_sound :
      (names assigned : List String) (values : Entry)
      → ((k : String) → mem k assigned ≡ true → mem k names ≡ false)
      → partial_match_any values assigned exclude ≡ true
      → wanted (product names values) ≡ []
  unfolding partial_match_any entry_matches_any
  cut_sound names assigned values free hit = keep-none _ (product names values) (λ c m. ap not (
      any_mono _ (λ e. all (has_value c) e) exclude
        (λ e h.
          all_mono (is_assigned values assigned) (has_value c) e
            (λ f g.
              has_value-assigned values c assigned f
                (λ at. product-keeps names f.0 values c (free f.0 at) m) g)
            (ground arith))
        hit))

  bounded-fits : (acc : List Entry) → length acc ≤ 256 → bounded acc ≡ ok acc
  bounded-fits acc h = ground arith

  -- A chain of two bounded steps is one.
  bounded-bind :
      (acc xs ys : List Entry) (r : Result MatrixError (List Entry))
      (next : List Entry → Result MatrixError (List Entry))
      → r ≡ bounded (acc ++ xs)
      → ((more : List Entry) → length more ≤ 256 → next more ≡ bounded (more ++ ys))
      → (r >>= next) ≡ bounded (acc ++ (xs ++ ys))
  bounded-bind acc xs ys r next e later =
      elim (Bool-cases (ltb max_matrix_jobs (length (acc ++ xs)))) [
        | inl big ↦
            let wrong : r ≡ err too_many_jobs = e ∙ rw big refl in
            let total : ltb max_matrix_jobs (length (acc ++ (xs ++ ys))) ≡ true = ground (
              arith,
              big,
              length-append acc xs,
              length-append acc (xs ++ ys),
              length-append xs ys,
            ) in
            rw (wrong, total) refl
        | inr small ↦
            let right : r ≡ ok (acc ++ xs) = e ∙ rw small refl in
            rw right
              (later (acc ++ xs) (ground (arith, small)) ∙ ap bounded (append_assoc acc xs ys))
      ]

  visit_values_lem :
      (next : Entry → List Entry → Result MatrixError (List Entry)) (some_of : Entry → List Entry)
      (name : String) (assigned : List String) (vs : List Value) (values : Entry) (acc : List Entry)
      → ((w : Entry) (more : List Entry) (v : Value)
          → w ≡ insert name v values
          → length more ≤ 256
          → next w more ≡ bounded (more ++ wanted (some_of w)))
      → ((v : Value)
          → partial_match_any (insert name v values) assigned exclude ≡ true
          → wanted (some_of (insert name v values)) ≡ [])
      → length acc ≤ 256
      → visit_values axes exclude next name assigned vs values acc
        ≡ bounded (acc ++ wanted (product_values some_of name vs values))
  unfolding visit_values product_values
  visit_values_lem next some_of name assigned [] values acc step cut fits =
      sym (ap bounded (append-nil acc) ∙ bounded-fits acc fits)
  visit_values_lem next some_of name assigned (v ∷ vs) values acc step cut fits =
      let chosen = insert name v values in
      let here = wanted (some_of chosen) in
      let rest = wanted (product_values some_of name vs values) in
      let first : (if partial_match_any chosen assigned exclude then ok acc else next chosen acc)
          ≡ bounded (acc ++ here) =
        elim (Bool-cases (partial_match_any chosen assigned exclude)) [
          | inl hit ↦
              rw (hit, cut v hit) (sym (ap bounded (append-nil acc) ∙ bounded-fits acc fits))
          | inr miss ↦ rw miss (step chosen acc v refl fits)
        ] in
      bounded-bind acc here rest _ (visit_values axes exclude next name assigned vs values) first
        (λ more small. visit_values_lem next some_of name assigned vs values more step cut small)
      ∙ ap (λ cs. bounded (acc ++ cs)) (sym (keep-append _ (some_of chosen) _))

  -- What is assigned is of no axis that is left.
  abbrev AreFree : List String → List String → Type 0
  AreFree assigned names = (k : String) → mem k assigned ≡ true → mem k names ≡ false

  wanted_one :
      (values : Entry)
      → wanted (values ∷ []) ≡ (if entry_matches_any values exclude then [] else values ∷ [])
  wanted_one values = ground arith

  visit-product :
      (names assigned : List String) (values : Entry) (acc : List Entry)
      → AreDistinct names
      → AreFree assigned names
      → length acc ≤ 256
      → visit axes exclude names assigned values acc
        ≡ bounded (acc ++ wanted (product names values))
  unfolding visit product add_combination
  visit-product [] assigned values acc d free fits =
      elim (Bool-cases (entry_matches_any values exclude)) [
        | inl hit ↦
            rw (hit, add_combination, wanted_one values, hit)
              (sym (ap bounded (append-nil acc) ∙ bounded-fits acc fits))
        | inr miss ↦ rw (miss, add_combination, wanted_one values, miss) refl
      ]
  visit-product (name ∷ names) assigned values acc (new, d) free fits =
      let left : AreFree (name ∷ assigned) names = λ k m. ground (arith, free k, eq_iff k name) in
      visit_values_lem (visit axes exclude names (name ∷ assigned)) (product names) name
        (name ∷ assigned) (values_at axes name) values acc
        (λ w more v e small. visit-product names (name ∷ assigned) w more d left small)
        (λ v hit. cut_sound names (name ∷ assigned) (insert name v values) left hit) fits

  -- The combinations that expandMatrix starts from are those of one value for each axis that no
  -- exclude matches, in the order of the sorted axes and of their values; more than 256 of them are
  -- an error. The names of the axes are distinct, as the keys of a map are.
  pub visit-wanted :
      AreDistinct (names_of axes)
      → visit axes exclude (sort_texts (names_of axes)) [] [] []
        ≡ bounded (wanted (product (sort_texts (names_of axes)) []))
  visit-wanted d =
      visit-product (sort_texts (names_of axes)) [] [] [] (sort_texts-AreDistinct (names_of axes) d)
        (λ k m. absurd (cc)) (omega arith)
