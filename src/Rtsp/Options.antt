-- ===== src/Rtsp/Options.antt =====
-- The list of options: `insertOption` and `getOptionContent`.
use tesla_moonlight_ubuntu.Base.{
  ◌≡◌, refl, sym, ◌∙◌, ap, true, false, Option, none, some, List, [], ◌∷◌, arith, Bool-cases, inl,
  inr, if◌then◌else◌,
}
use tesla_moonlight_ubuntu.Rtsp.Types.{Text, OptionItem}
use tesla_moonlight_ubuntu.Rtsp.Types.Text.{same}

-- `getOptionContent`
unfoldable pub get_option_content : List OptionItem → Text → Option Text
get_option_content [] name = none
get_option_content (o ∷ os) name = elim (same o.name name) [
  | true ↦ some o.content
  | false ↦ get_option_content os name
]

-- `insertOption`: in place of the content of an option of that name, else at the end
unfoldable pub insert_option : List OptionItem → OptionItem → List OptionItem
insert_option [] opt = opt ∷ []
insert_option (o ∷ os) opt = elim (same o.name opt.name) [
  | true ↦ record o { content = opt.content } ∷ os
  | false ↦ o ∷ insert_option os opt
]

pub same_refl : (xs : Text) → same xs xs ≡ true
unfolding same
same_refl [] = refl
same_refl (x ∷ xs) = ground (arith, same_refl xs)

pub same→≡ : (xs ys : Text) → same xs ys ≡ true → xs ≡ ys
unfolding same
same→≡ [] [] h = refl
same→≡ [] (y ∷ ys) h = absurd cc
same→≡ (x ∷ xs) [] h = absurd cc
same→≡ (x ∷ xs) (y ∷ ys) h =
    let e : x ≡ y = ground arith in let r = same→≡ xs ys (ground arith) in rw (e, r) refl

-- After an insertion, the name has the new content and every other name has what it had.
pub get_option_content-insert_option :
    (os : List OptionItem) (opt : OptionItem) (name : Text)
    → get_option_content (insert_option os opt) name
      ≡ (if same opt.name name then some opt.content else get_option_content os name)
unfolding get_option_content insert_option
get_option_content-insert_option [] opt name = elim (Bool-cases (same opt.name name)) [
  | inl e ↦ ground (arith, e)
  | inr e ↦ ground (arith, e)
]
get_option_content-insert_option (o ∷ os) opt name =
    let ih = get_option_content-insert_option os opt name in
    elim (Bool-cases (same o.name opt.name)) [
      | inl e ↦
          let n : same opt.name name ≡ same o.name name =
            ap (λ x. same x name) (sym (same→≡ o.name opt.name e)) in
          ground (arith, e, n)
      | inr e ↦ elim (Bool-cases (same o.name name)) [
        | inl m ↦
            let n : same o.name opt.name ≡ same name opt.name =
              ap (λ x. same x opt.name) (same→≡ o.name name m) in
            let k : same opt.name name ≡ false = differ name opt.name (sym n ∙ e) in
            ground (arith, e, m, k)
        | inr m ↦ ground (arith, e, m, ih)
      ]
    ]
  where
    differ : (xs ys : Text) → same xs ys ≡ false → same ys xs ≡ false
    differ xs ys h = elim (Bool-cases (same ys xs)) [
      | inl e ↦
          let z : same xs ys ≡ true = ap (λ x. same x ys) (sym (same→≡ ys xs e)) ∙ same_refl ys in
          absurd cc
      | inr e ↦ e
    ]
