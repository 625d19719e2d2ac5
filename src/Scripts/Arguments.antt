-- ===== src/Scripts/Arguments.antt =====
-- The tokens of a kernel's command line.
use home_lab_pxe.Prelude.{
  ℕ, ◌≡◌, refl, ap, ◌∙◌, Text, text_eq, codes, false, not, Bool-cases, inl, inr, is_space, List, [],
  ◌∷◌, ◌++◌, any_is, where_is, is_nil, arith, All, All-append, All-where_is,
}
use mathlib.Core.List.{reverse, reverse_aux, reverse-reverse}
use home_lab_pxe.Lab.{Env}
use home_lab_pxe.Hardware.{split_words, join_words}
use home_lab_pxe.Scripts.{
  nocloud, is_dashes, tokens, has_prefix, without_prefix, linux_kernel_parts, linux_kernel_args,
}

-- A token: a text that is not empty and has no blank.
abbrev pub IsToken : Text → Type 0
IsToken text = (is_nil text ≡ false) × (any_is is_space text ≡ false)

spaceless-reverse_aux :
    (s acc : Text)
    → any_is is_space s ≡ false
    → any_is is_space acc ≡ false
    → any_is is_space (reverse_aux s acc) ≡ false
spaceless-reverse_aux [] acc h k = k
spaceless-reverse_aux (c ∷ s) acc h k =
    spaceless-reverse_aux s (c ∷ acc) (ground (arith, h)) (ground (arith, h, k))

full-reverse_aux : (s : Text) (c : ℕ) (acc : Text) → is_nil (reverse_aux s (c ∷ acc)) ≡ false
full-reverse_aux [] c acc = refl
full-reverse_aux (d ∷ s) c acc = full-reverse_aux s d (c ∷ acc)

reverse-IsToken : (word : Text) → IsToken word → IsToken (reverse word)
reverse-IsToken [] h = absurd (ground (arith, h.0))
reverse-IsToken (c ∷ word) h =
    (full-reverse_aux word c [], spaceless-reverse_aux (c ∷ word) [] h.1 refl)

split-IsToken : (word s : Text) → any_is is_space word ≡ false → All IsToken (split_words word s)
unfolding split_words
split-IsToken [] [] h = tt
split-IsToken (c ∷ word) [] h = (reverse-IsToken (c ∷ word) (refl, h), tt)
split-IsToken [] (c ∷ s) h = elim (Bool-cases (is_space c)) [
  | inl e ↦ rw e (split-IsToken [] s refl)
  | inr e ↦ rw e (split-IsToken (c ∷ []) s (ground (arith, e)))
]
split-IsToken (d ∷ word) (c ∷ s) h = elim (Bool-cases (is_space c)) [
  | inl e ↦ rw e (reverse-IsToken (d ∷ word) (refl, h), split-IsToken [] s refl)
  | inr e ↦ rw e (split-IsToken (c ∷ d ∷ word) s (ground (arith, h, e)))
]

split_words-word :
    (acc word rest : Text)
    → any_is is_space word ≡ false
    → split_words acc (word ++ rest) ≡ split_words (reverse_aux word acc) rest
unfolding split_words
split_words-word acc [] rest h = refl
split_words-word acc (c ∷ word) rest h =
    let plain : is_space c ≡ false = ground (arith, h) in
    rw plain (split_words-word (c ∷ acc) word rest (ground (arith, h)))

split_words-last :
    (acc word : Text)
    → any_is is_space word ≡ false
    → split_words acc word ≡ split_words (reverse_aux word acc) []
unfolding split_words
split_words-last acc [] h = refl
split_words-last acc (c ∷ word) h =
    let plain : is_space c ≡ false = ground (arith, h) in
    rw plain (split_words-last (c ∷ acc) word (ground (arith, h)))

-- The word that was read, in the order of the text.
read_word :
    (word : Text) (words : List Text) → IsToken word → reverse (reverse word) ∷ words ≡ word ∷ words
read_word word words h = ap (λ w. w ∷ words) (reverse-reverse word)

split_words-join_words : (words : List Text) → All IsToken words → tokens (join_words words) ≡ words
unfolding split_words join_words
split_words-join_words [] all = refl
split_words-join_words (word ∷ []) all =
    let full = (reverse-IsToken word all.0).0 in
    split_words-last [] word all.0.1 ∙ rw full (read_word word [] all.0)
split_words-join_words (word ∷ next ∷ words) all =
    let full = (reverse-IsToken word all.0).0 in
    let later = split_words-join_words (next ∷ words) all.1 in
    split_words-word [] word (b' ' ∷ join_words (next ∷ words)) all.0.1
    ∙ rw (full, later) (read_word word (next ∷ words) all.0)

-- The fixed tokens.
fixed-IsToken : All IsToken (nocloud ∷ codes "autoinstall" ∷ codes "---" ∷ [])
unfolding is_space
fixed-IsToken = ((refl, refl), ((refl, refl), ((refl, refl), tt)))

defaults-IsToken :
    (defaults : List Text)
    → All (λ part. any_is is_space part ≡ false) defaults
    → All IsToken (where_is (λ part. not (is_nil part)) defaults)
defaults-IsToken [] all = tt
defaults-IsToken ([] ∷ defaults) all = defaults-IsToken defaults all.1
defaults-IsToken ((c ∷ part) ∷ defaults) all = ((refl, all.0), defaults-IsToken defaults all.1)

module _ (env : Env) where
  parts-IsToken :
      (extra : Text) (defaults : List Text)
      → All (λ part. any_is is_space part ≡ false) defaults
      → All IsToken (linux_kernel_parts env extra defaults)
  unfolding linux_kernel_parts
  parts-IsToken extra defaults plain =
      let rest = tokens (without_prefix env extra (codes "autoinstall")) in
      (
        fixed-IsToken.1.0,
        All-append IsToken (where_is (λ token. not (is_dashes token)) rest) _
            (All-where_is IsToken (λ token. not (is_dashes token)) rest
              (split-IsToken [] (without_prefix env extra (codes "autoinstall")) refl))
            (All-append IsToken (where_is (λ part. not (is_nil part)) defaults) _
              (defaults-IsToken defaults plain) fixed-IsToken),
      )

  -- Leaving a prefix out keeps the other tokens of a command line, in their order, and no more.
  pub tokens-without_prefix :
      (cmdline prefix : Text)
      → tokens (without_prefix env cmdline prefix)
        ≡ where_is (λ token. not (has_prefix env prefix token)) (tokens cmdline)
  unfolding without_prefix
  tokens-without_prefix cmdline prefix =
      split_words-join_words
        (where_is (λ token. not (has_prefix env prefix token)) (tokens cmdline))
        (All-where_is IsToken (λ token. not (has_prefix env prefix token)) (tokens cmdline)
          (split-IsToken [] cmdline refl))

  -- The command line of the installer, cut at its blanks, is the token `autoinstall`, the tokens of the
  -- operator without `---` and without those that begin with `autoinstall` in any case, the defaults
  -- that are not empty, the place of the seed, `autoinstall` again and `---`, where no default has a blank.
  pub tokens-linux_kernel_args :
      (extra : Text) (defaults : List Text)
      → All (λ part. any_is is_space part ≡ false) defaults
      → tokens (linux_kernel_args env extra defaults)
        ≡ (codes "autoinstall"
            ∷ where_is
                (λ token. not (text_eq token (codes "---")))
                (where_is
                  (λ token. not (has_prefix env (codes "autoinstall") token))
                  (tokens extra)))
          ++ (where_is (λ part. not (is_nil part)) defaults
              ++ (nocloud ∷ codes "autoinstall" ∷ codes "---" ∷ []))
  unfolding linux_kernel_args linux_kernel_parts
  tokens-linux_kernel_args extra defaults plain =
      split_words-join_words (linux_kernel_parts env extra defaults)
        (parts-IsToken extra defaults plain)
      ∙ ap
          (λ rest.
            (codes "autoinstall" ∷ where_is (λ token. not (is_dashes token)) rest)
            ++ (where_is (λ part. not (is_nil part)) defaults
                ++ (nocloud ∷ codes "autoinstall" ∷ codes "---" ∷ [])))
          (tokens-without_prefix extra (codes "autoinstall"))
