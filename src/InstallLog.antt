-- ===== src/InstallLog.antt =====
-- src/inventory/service.py: lines of an installer's log that may hold a secret are replaced, and
-- the log is cut to its last 64 KiB.
use Prim.Native.Nat.{ℕ, ◌+◌}
use home_lab_pxe.Prelude.{
  ◌==◌, leb, Text, strip, codes, starts_with, utf8_length, Bool, ◌&&◌, ◌||◌, List, [], ◌∷◌, ◌++◌,
  map, any_is, if◌then◌else◌,
}

abbrev pub install_log_max_bytes : ℕ
install_log_max_bytes = 65536

-- The case folding of `re.IGNORECASE` as it bears on the letters of the keywords.
unfoldable pub fold_case : ℕ → ℕ
fold_case c =
    if leb b'A' c && leb c b'Z'
    then c + 32
    else if c == 0x17f
    then b's'
    else if c == 0x212a
    then b'k'
    else if c == 0x130 || c == 0x131
    then b'i'
    else c

-- The alternatives of `_SECRET_LINE`, in lower case.
abbrev pub secret_words : List Text
secret_words =
    codes "password"
    ∷ codes "chpasswd"
    ∷ codes "ssh_authorized_keys"
    ∷ codes "ssh-rsa"
    ∷ codes "ssh-ed25519"
    ∷ codes "begin openssh"
    ∷ codes "autologon"
    ∷ codes "administratorpassword"
    ∷ []

abbrev starts_any : List Text → Text → Bool
starts_any words line = any_is (starts_with line) words

abbrev occurs_any : List Text → Text → Bool
occurs_any words [] = starts_any words []
occurs_any words (c ∷ line) = starts_any words (c ∷ line) || occurs_any words line

-- `_SECRET_LINE.search(line)`
unfoldable pub is_secret_line : Text → Bool
unfolding fold_case starts_with
is_secret_line line = occurs_any secret_words (map fold_case line)

-- The characters at which `str.splitlines` cuts.
unfoldable pub is_line_break : ℕ → Bool
is_line_break c =
    (leb 10 c && leb c 13) || (leb 28 c && leb c 30) || c == 0x85 || c == 0x2028 || c == 0x2029

-- The first line put in front of the lines after it; `\r\n` is one break.
abbrev add_char : ℕ → List Text → List Text
add_char c [] = (c ∷ []) ∷ []
add_char c (line ∷ lines) = (c ∷ line) ∷ lines

-- A text that ends in a break has no empty line after it.
unfoldable pub splitlines : Text → List Text
unfolding is_line_break
splitlines [] = []
splitlines (c ∷ []) = if is_line_break c then [] ∷ [] else (c ∷ []) ∷ []
splitlines (c ∷ d ∷ s) =
    let rest = splitlines (d ∷ s) in
    if c == 13 && d == 10 then rest else if is_line_break c then [] ∷ rest else add_char c rest

-- `"\n".join(lines)`
unfoldable pub join_lines : List Text → Text
join_lines [] = []
join_lines (line ∷ []) = line
join_lines (line ∷ next ∷ lines) = line ++ 10 ∷ join_lines (next ∷ lines)

unfoldable pub redact_line : Text → Text
redact_line line = if is_secret_line line then codes "[redacted]" else line

-- `encoded[-limit:].decode("utf-8", errors="ignore")`: the longest tail of whole characters.
unfoldable pub last_bytes : ℕ → Text → Text
unfolding utf8_length
last_bytes limit [] = []
last_bytes limit (c ∷ s) = if leb (utf8_length (c ∷ s)) limit then c ∷ s else last_bytes limit s

unfoldable pub redact_install_log : Text → Text
redact_install_log raw =
    last_bytes install_log_max_bytes (strip (join_lines (map redact_line (splitlines raw))))
