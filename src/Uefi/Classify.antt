-- ===== src/Uefi/Classify.antt =====
-- src/boot/uefi_order.py: what kind of boot entry a description and a device path name. `is_word` is
-- the `\w` of Python's regular expressions.
use home_lab_pxe.Prelude.{
  ℕ, Text, codes, contains, Bool, false, ◌&&◌, ◌||◌, List, [], ◌∷◌, any_is, ◌==◌, if◌then◌else◌,
}
use mathlib.Core.Bool.{xor}
use home_lab_pxe.InstallLog.{fold_case}

pub data Kind : Type 0 where
  network disk other : Kind

-- NETWORK_WORDS and DISK_WORDS, in lower case.
abbrev pub network_words : List Text
network_words =
    codes "pxe"
    ∷ codes "http"
    ∷ codes "ipv4"
    ∷ codes "ipv6"
    ∷ codes "network"
    ∷ codes "lan"
    ∷ codes "ethernet"
    ∷ codes "nic"
    ∷ []

abbrev pub disk_words : List Text
disk_words =
    codes "windows boot manager"
    ∷ codes "ubuntu"
    ∷ codes "debian"
    ∷ codes "rhel"
    ∷ codes "grub"
    ∷ codes "shim"
    ∷ []

module _ (is_word : ℕ → Bool) where
  -- `\b` between a character and what follows it.
  abbrev ends_word : ℕ → Text → Bool
  ends_word c [] = is_word c
  ends_word c (d ∷ s) = xor (is_word c) (is_word d)

  -- A word at the head of the text, with `\b` behind it; `last` is the character before the text.
  unfoldable pub word_here : ℕ → Text → Text → Bool
  unfolding fold_case
  word_here last [] s = ends_word last s
  word_here last (w ∷ word) [] = false
  word_here last (w ∷ word) (c ∷ s) = fold_case c == w && word_here c word s

  -- `re.search(word_pattern(words), text, re.IGNORECASE)`; `inside` tells whether the character
  -- before the text is a word character.
  unfoldable pub search_words : List Text → Bool → Text → Bool
  unfolding word_here
  search_words words inside [] = false
  search_words words inside (c ∷ s) =
      (xor inside (is_word c) && any_is (λ word. word_here c word (c ∷ s)) words)
      || search_words words (is_word c) s

  abbrev pub has_word : List Text → Text → Bool
  has_word words text = search_words words false text

  -- A network entry may have a device path that holds `HD(`.
  unfoldable pub classify : Text → Text → Kind
  unfolding search_words
  classify description device_path =
      if has_word network_words description
        || contains device_path (codes "MAC(")
        || contains device_path (codes "Uri(")
      then network
      else if has_word disk_words description || contains device_path (codes "HD(")
      then disk
      else other

  unfoldable pub is_ipv4_network : Text → Bool
  unfolding search_words
  is_ipv4_network description =
      if has_word (codes "ipv6" ∷ []) description || has_word (codes "http" ∷ []) description
      then false
      else has_word (codes "ipv4" ∷ []) description || has_word (codes "pxe" ∷ []) description
