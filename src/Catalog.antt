-- ===== src/Catalog.antt =====
-- src/install_sources.py: the catalog of install sources that an image or an ISO offers.
use home_lab_pxe.Prelude.{
  ℕ, leb, ◌==◌, Text, text_eq, strip, take, Bool, not, ◌&&◌, ◌||◌, Option, none, some, List, [],
  ◌∷◌, where_is, first_where, any_is, is_nil, if◌then◌else◌, ℤ, pos, negsuc,
}
use home_lab_pxe.Models.{SourceRow}
use home_lab_pxe.Lab.{Env}

pub record InstallSource : Type 0 where
  pub source_id : Text
  pub label : Text
  pub default : Bool
  pub wim_index : Option ℕ

abbrev is_printed : ℕ → Bool
is_printed c = leb 32 c && not (c == 127)

-- SOURCE_ID_MAX
unfoldable pub sanitize_source_id : Text → Text
unfolding strip
sanitize_source_id value =
    take 200 (where_is is_printed (strip (where_is (λ c. not (c == 0)) value)))

-- An index below 1 is no index.
abbrev row_index : Option ℤ → Option ℕ
row_index none = none
row_index (some (negsuc n)) = none
row_index (some (pos n)) = if n == 0 then none else some n

abbrev text_or : Text → Text → Text
text_or [] other = other
text_or (c ∷ s) other = c ∷ s

abbrev source_of : Text → SourceRow → InstallSource
source_of source_id source = record {
  source_id = source_id;
  label = text_or (strip (text_or source.label source_id)) source_id;
  default = source.default;
  wim_index = row_index source.wim_index;
}

-- The loop, with the ids that were seen.
unfoldable pub read_rows : List Text → List SourceRow → List InstallSource
unfolding sanitize_source_id strip
read_rows seen [] = []
read_rows seen (source ∷ rows) =
    let source_id = sanitize_source_id source.id in
    let skipped = read_rows seen rows in
    let kept = source_of source_id source ∷ read_rows (source_id ∷ seen) rows in
    if is_nil source_id || any_is (text_eq source_id) seen then skipped else kept

unfoldable pub catalog_from_json : Env → Text → List InstallSource
unfolding read_rows
catalog_from_json env raw = read_rows [] (env.json_rows raw)

abbrev pub has_id : Text → InstallSource → Bool
has_id wanted source = text_eq source.source_id wanted

abbrev default_id : List InstallSource → List InstallSource → Text
default_id items [] = elim items [ [] ↦ [] | item ∷ rest ↦ item.source_id ]
default_id items (item ∷ rest) = if item.default then item.source_id else default_id items rest

-- The wanted source if it is offered, else the default one, else the first.
unfoldable pub pick_source_id : List InstallSource → Text → Text
unfolding sanitize_source_id
pick_source_id items current =
    let wanted = sanitize_source_id current in
    if any_is (has_id wanted) items then wanted else default_id items items

abbrev index_of : Option InstallSource → Option ℕ
index_of none = none
index_of (some source) = source.wim_index

unfoldable pub wim_index_for_source : List InstallSource → Text → Option ℕ
unfolding sanitize_source_id
wim_index_for_source items source_id =
    index_of (first_where (has_id (sanitize_source_id source_id)) items)
