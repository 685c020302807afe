-- ===== src/FactoryReset/Labels.antt =====
-- Which labels a comma-separated list names.
use esp32c3_bootloader_rust.Common.{
  ℕ, suc, ◌≡◌, ◌≢◌, ◌⊎◌, ◌↔◌, inl, inr, refl, ap, ap₂, sym, ◌∙◌, arith, List, [], ◌∷◌, Bool, true,
  false, not, Bool-cases, ==_iff, &&-true, if◌then◌else◌, ◌==◌, length,
}
use esp32c3_bootloader_rust.FactoryReset.{trim, zip_equal, is_listed}

-- One of the fields, trimmed, is the label.
abbrev pub IsField : List ℕ → List (List ℕ) → Type 0
IsField label [] = ⊥
IsField label (field ∷ fields) = (trim field ≡ label) ⊎ IsField label fields

zip_equal_iff : (xs ys : List ℕ) → length xs ≡ length ys → (zip_equal xs ys ≡ true) ↔ (ys ≡ xs)
unfolding zip_equal
zip_equal_iff [] [] h = ((λ _. refl), (λ _. refl))
zip_equal_iff [] (y ∷ ys) h = absurd (omega arith)
zip_equal_iff (x ∷ xs) [] h = absurd (omega arith)
zip_equal_iff (x ∷ xs) (y ∷ ys) h =
    let ih = zip_equal_iff xs ys (omega arith) in
    (
      (λ e.
          let both = &&-true (x == y) (zip_equal xs ys) e in
          ap₂ (λ b bs. b ∷ bs) (sym ((==_iff x y).0 both.0)) (ih.0 both.1)),
      (λ (e : y ∷ ys ≡ x ∷ xs).
          let head : x ≡ y = cc e in
          let tail : ys ≡ xs = cc e in rw ((==_iff x y).1 head, ih.1 tail) refl),
    )

nonzero : (n : ℕ) → (suc n == 0) ≡ false
nonzero n = ground arith

-- One round of the loop, for the trimmed field `t` and the verdict `rest` on the other fields.
listed_step :
    {F : Type 0} (label t : List ℕ) (rest : Bool)
    → ((rest ≡ true) ↔ ((label ≢ []) × F))
    → ((if length t == 0
          then rest
          else if not (length label == length t)
          then rest
          else if zip_equal label t
          then true
          else rest)
        ≡ true)
      ↔ ((label ≢ []) × ((t ≡ label) ⊎ F))
listed_step label [] rest ih = (
  (λ e. ((ih.0 e).0, inr (ih.0 e).1)),
  (λ h. elim h.1 [ inl e ↦ absurd (h.0 (sym e)) | inr f ↦ ih.1 (h.0, f) ]),
)
listed_step label (y ∷ ys) rest ih = elim (Bool-cases (length label == suc (length ys))) [
  | inl same ↦
      let zip = zip_equal_iff label (y ∷ ys) ((==_iff _ _).0 same) in
      let nonempty : label ≢ [] = (λ e.
        absurd (omega (arith, (==_iff (length label) (suc (length ys))).0 same, ap length e))) in
      elim (Bool-cases (zip_equal label (y ∷ ys))) [
        | inl equal ↦
            rw (same, equal, nonzero (length ys))
              ((λ _. (nonempty, inl (zip.0 equal))), (λ _. refl))
        | inr differ ↦
            rw (same, differ, nonzero (length ys))
              (
                (λ e. (nonempty, inr (ih.0 e).1)),
                (λ h. elim h.1 [
                  | inl e ↦ absurd (cc (sym differ ∙ zip.1 e))
                  | inr f ↦ ih.1 (h.0, f)
                ]),
              )
      ]
  | inr other ↦
      rw (other, nonzero (length ys))
        (
          (λ e. ((ih.0 e).0, inr (ih.0 e).1)),
          (λ h. elim h.1 [
            | inl e ↦ absurd (cc (sym other ∙ (==_iff _ _).1 (sym (ap length e))))
            | inr f ↦ ih.1 (h.0, f)
          ]),
        )
]

-- The loop accepts a label exactly when it is not empty and one of the fields, trimmed, is the
-- label.
pub is_listed_iff :
    (label : List ℕ) (fields : List (List ℕ))
    → (is_listed label fields ≡ true) ↔ ((label ≢ []) × IsField label fields)
unfolding is_listed
is_listed_iff label [] = ((λ (e : false ≡ true). cc e), (λ h. absurd h.1))
is_listed_iff label (field ∷ fields) =
    listed_step label (trim field) (is_listed label fields) (is_listed_iff label fields)
