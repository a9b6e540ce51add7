-- ===== src/Gui/Page/Loaded.antt =====
-- The page is the file beside the program, whole.
use jitterentropy_analysis_d.Prelude.{
  ℕ, ◌+◌, ◌≤◌, ◌<◌, true, false, Option, none, some, [], ◌∷◌, ◌++◌, ◌≡◌, ◌≢◌, All, refl, ap, ◌∙◌,
  arith, leb, ◌==◌, ◌||◌, not, min, length, length-append, if_false,
}
use jitterentropy_analysis_d.Bridge.Text.{Bytes}
use jitterentropy_analysis_d.Bridge.Getters.{codes}
use jitterentropy_analysis_d.Gui.Page.{
  Asset, error_page, before_last, asset_path, decoded, read_asset, load_gui_html_file,
}

before_last-none : (name : Bytes) → All (λ c. c ≢ b'\\') name → before_last name ≡ none
unfolding before_last
before_last-none [] a = refl
before_last-none (c ∷ name) (other, a) =
    let differs : (c == b'\\') ≡ false = ground (arith, other) in
    rw (before_last-none name a, before_last, differs) refl

before_last_found :
    (dir name : Bytes) → All (λ c. c ≢ b'\\') name → before_last (dir ++ (b'\\' ∷ name)) ≡ some dir
unfolding before_last
before_last_found [] name a = rw (before_last-none name a, before_last) refl
before_last_found (c ∷ dir) name a = rw (before_last_found dir name a, before_last) refl

asset_path_lem :
    (dir name : Bytes)
    → All (λ c. c ≢ b'\\') name
    → asset_path (dir ++ (b'\\' ∷ name)) ≡ dir ++ codes "\\gui\\index.html"
unfolding asset_path
asset_path_lem dir name a = rw (before_last_found dir name a, asset_path) refl

read_asset_whole :
    (decode : Bytes → Option Bytes) (file : Asset) (c : ℕ) (text : Bytes)
    → file.sized ≡ true
    → 0 < length file.content
    → length file.content ≤ file.readable
    → decode file.content ≡ some (c ∷ text)
    → read_asset decode file ≡ c ∷ text
unfolding read_asset decoded
read_asset_whole decode file c text sized some_bytes all e =
    let start : (not file.sized || (length file.content == 0)) ≡ false =
      ground (arith, sized, some_bytes) in
    let whole : not (min file.readable (length file.content) == length file.content) ≡ false =
      ground (arith, all) in
    if_false _ _ _ start ∙ if_false _ _ _ whole ∙ ap decoded e

-- For a program in the directory `dir` whose path fits into the buffer: if gui\index.html in `dir` can be
-- opened, measured and read, is not empty and is UTF-8, the page is its text, all of it, whatever
-- characters it holds.
pub load_gui_html_file_lem :
    (open_file : Bytes → Option Asset) (decode : Bytes → Option Bytes) (dir name : Bytes)
    (file : Asset) (c : ℕ) (text : Bytes)
    → All (λ c. c ≢ b'\\') name
    → length dir + length name < 259
    → open_file (dir ++ codes "\\gui\\index.html") ≡ some file
    → file.sized ≡ true
    → 0 < length file.content
    → length file.content ≤ file.readable
    → decode file.content ≡ some (c ∷ text)
    → load_gui_html_file open_file decode (dir ++ (b'\\' ∷ name)) ≡ c ∷ text
unfolding load_gui_html_file
load_gui_html_file_lem open_file decode dir name file c text a short found sized some_bytes all e =
    let exe : Bytes = dir ++ (b'\\' ∷ name) in
    let long = length-append dir (b'\\' ∷ name) in
    let fits : ((length exe == 0) || leb 260 (length exe)) ≡ false = ground (arith, long, short) in
    if_false _ _ _ fits
    ∙ ap
        (λ x. elim x [
          | none ↦ error_page (codes "Error: index.html not found")
          | some f ↦ read_asset decode f
        ])
        (ap open_file (asset_path_lem dir name a) ∙ found)
    ∙ read_asset_whole decode file c text sized some_bytes all e
