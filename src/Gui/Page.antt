-- ===== src/Gui/Page.antt =====
-- `LoadGuiHtmlFile`: the text of the page, of which the browser is given what stands before its first NUL,
-- if it has one. Wide texts are lists of their units. The file
-- system and the conversion from UTF-8 are arguments.
pub mod Loaded
use jitterentropy_analysis_d.Prelude.{
  ℕ, Bool, true, false, Option, none, some, List, [], ◌∷◌, ◌++◌, ltb, leb, ◌==◌, ◌||◌, not, min,
  if◌then◌else◌, length,
}
use jitterentropy_analysis_d.Bridge.Text.{Bytes}
use jitterentropy_analysis_d.Bridge.Getters.{codes}

-- A file that `_wfopen` has opened: whether `fseek` and `ftell` succeed, what it holds, and how much of
-- that `fread` can read.
pub record Asset : Type 0 where
  pub sized : Bool
  pub content : Bytes
  pub readable : ℕ

-- `GuiErrorPage`
abbrev pub error_page : Bytes → Bytes
error_page message =
    codes "<!DOCTYPE html><html><body><h2>" ++ (message ++ codes "</h2></body></html>")

-- What stands before the last backslash, if there is one.
unfoldable pub before_last : Bytes → Option Bytes
before_last [] = none
before_last (c ∷ path) = elim (before_last path) [
  | some dir ↦ some (c ∷ dir)
  | none ↦ if c == b'\\' then some [] else none
]

-- From the path of the program.
unfoldable pub asset_path : Bytes → Bytes
unfolding before_last
asset_path exe =
    (elim (before_last exe) [ none ↦ exe | some dir ↦ dir ]) ++ codes "\\gui\\index.html"

-- From the content to the end.
unfoldable pub decoded : Option Bytes → Bytes
decoded none = error_page (codes "Error: index.html is not valid UTF-8")
decoded (some []) = error_page (codes "Error: index.html is not valid UTF-8")
decoded (some (c ∷ text)) = c ∷ text

-- From the opened file on.
pub read_asset : (Bytes → Option Bytes) → Asset → Bytes
unfolding decoded
read_asset decode file =
    if not file.sized || (length file.content == 0)
    then error_page (codes "Error reading index.html")
    else if not (min file.readable (length file.content) == length file.content)
    then error_page (codes "Error reading index.html")
    else decoded (decode file.content)

-- `exe` is the path that `GetModuleFileNameW` gives, empty if it fails; of a longer one than fits it
-- returns `MAX_PATH`.
pub load_gui_html_file : (Bytes → Option Asset) → (Bytes → Option Bytes) → Bytes → Bytes
unfolding read_asset
load_gui_html_file open_file decode exe =
    if (length exe == 0) || leb 260 (length exe)
    then error_page (codes "Error: could not locate the application directory")
    else elim (open_file (asset_path exe)) [
      | none ↦ error_page (codes "Error: index.html not found")
      | some file ↦ read_asset decode file
    ]
