-- ===== src/Web/Picker.antt =====
-- web/src/components/DirectoryPicker.tsx: the state of the picker, from its opening to its end, for one device. The
-- n-th request id is a function of n. `toLowerCase` is a parameter.
pub mod Requests
pub mod Tests
use agent_web_mvp.Prelude.{
  ℕ, suc, String, Bool, true, false, ◌&&◌, ◌||◌, not, List, [], ◌∷◌, ◌++◌, Option, none, some, keep,
  truthy, is_some, if◌then◌else◌, ◌==◌, ◌<>◌, nat_eq, leb,
}
use agent_web_mvp.Types.{DirEntry, ClientMessage, list_dir, ServerMessage, dir_listing}
use agent_web_mvp.Types.AuthDetect.{codes}
use agent_web_mvp.Auth.{starts_with}
use agent_web_mvp.Session.Title.{trim}

pub record Listing : Type 0 where
  pub path : String
  pub parent : Option String
  pub entries : List DirEntry
  pub error : Option String

pub record Picker : Type 0 where
  pub listing : Option Listing
  pub loading : Bool
  pub query : String
  pub request_id : String
  pub tried_home_fallback : Bool
  pub drawn : ℕ
  pub sent : List ClientMessage
  pub picked : List String

abbrev pub is_letter : ℕ → Bool
is_letter c = (leb b'a' c && leb c b'z') || (leb b'A' c && leb c b'Z')

-- /^[a-zA-Z]:[\\/]/
abbrev pub is_drive : List ℕ → Bool
is_drive (c ∷ colon ∷ sep ∷ s) =
    is_letter c && (nat_eq colon b':' && (nat_eq sep 92 || nat_eq sep b'/'))
is_drive _ = false

unfoldable pub looks_like_absolute_path : String → Bool
unfolding trim codes
looks_like_absolute_path s =
    let t = codes (trim s) in
    trim s == "~" || (starts_with (b'/' ∷ []) t || (starts_with (92 ∷ 92 ∷ []) t || is_drive t))

abbrev pub includes : List ℕ → List ℕ → Bool
includes w [] = starts_with w []
includes w (c ∷ s) = starts_with w (c ∷ s) || includes w s

abbrev pub ends_with : ℕ → List ℕ → Bool
ends_with sep [] = false
ends_with sep (c ∷ []) = nat_eq c sep
ends_with sep (c ∷ d ∷ s) = ends_with sep (d ∷ s)

abbrev pub joined : (is_windows : Bool) (base child : String) → String
joined true base child =
    if ends_with 92 (codes base) then base <> child else base <> ("\\" <> child)
joined false base child =
    if ends_with b'/' (codes base) then base <> child else base <> ("/" <> child)

unfoldable pub join_path : (base child : String) → String
unfolding codes ◌<>◌
join_path base child =
    joined (includes (92 ∷ []) (codes base) && not (includes (b'/' ∷ []) (codes base))) base child

pub data Happening : Type 0 where
  hears : ServerMessage → Happening
  types_query : String → Happening
  escape enter : Happening
  clicks_parent : Happening
  clicks_entry : (name : String) → Happening
  uses_folder : Happening

module _ (to_lower : String → String) (random_id : ℕ → String) (device_id : Option String) where
  unfoldable pub fetch_dir : (target : String) → Picker → Picker
  fetch_dir target p = record p {
    request_id = random_id p.drawn;
    drawn = suc p.drawn;
    loading = true;
    sent = p.sent ++ list_dir (random_id p.drawn) device_id target ∷ [];
    query = "";
  }

  unfoldable pub on_listing :
      (path : String) (parent : Option String)
      → List DirEntry
      → (error : Option String) → Picker
      → Picker
  unfolding fetch_dir
  on_listing path parent entries error p =
      if is_some (truthy error) && (not p.tried_home_fallback && not (path == ""))
      then fetch_dir "" (record p { tried_home_fallback = true })
      else record p {
        loading = false;
        listing = some (record { path = path; parent = parent; entries = entries; error = error });
      }

  unfoldable pub on_message : ServerMessage → Picker → Picker
  unfolding on_listing
  on_message (dir_listing request_id path parent entries error) p =
      if request_id == p.request_id then on_listing path parent entries error p else p
  on_message _ p = p

  unfoldable pub filtered : Option Listing → (query : String) → List DirEntry
  unfolding looks_like_absolute_path trim codes
  filtered none query = []
  filtered (some l) query =
      let q = to_lower (trim query) in
      if q == "" || looks_like_absolute_path q
      then l.entries
      else keep (λ e. includes (codes q) (codes (to_lower e.name))) l.entries

  abbrev pub enter_entry : Option Listing → List DirEntry → Picker → Picker
  enter_entry (some l) (e ∷ []) p = fetch_dir (join_path l.path e.name) p
  enter_entry _ _ p = p

  unfoldable pub on_enter : Picker → Picker
  unfolding fetch_dir filtered looks_like_absolute_path trim join_path
  on_enter p =
      let trimmed = trim p.query in
      if trimmed == ""
      then p
      else if looks_like_absolute_path trimmed
      then fetch_dir (if trimmed == "~" then "" else trimmed) p
      else enter_entry p.listing (filtered p.listing p.query) p

  abbrev pub go_up : Option Listing → Picker → Picker
  go_up none p = p
  go_up (some l) p = elim (truthy l.parent) [ none ↦ p | some parent ↦ fetch_dir parent p ]

  abbrev pub enter_name : String → Option Listing → Picker → Picker
  enter_name name none p = p
  enter_name name (some l) p = fetch_dir (join_path l.path name) p

  -- The button is disabled without a path and with an error.
  abbrev pub use_folder : Option Listing → Picker → Picker
  use_folder none p = p
  use_folder (some l) p =
      if l.path == "" || is_some (truthy l.error)
      then p
      else record p { picked = p.picked ++ l.path ∷ [] }

  unfoldable pub act : Happening → Picker → Picker
  unfolding on_message on_enter fetch_dir join_path
  act (hears m) p = on_message m p
  act (types_query q) p = record p { query = q }
  act escape p = record p { query = "" }
  act enter p = on_enter p
  act clicks_parent p = go_up p.listing p
  act (clicks_entry name) p = enter_name name p.listing p
  act uses_folder p = use_folder p.listing p

  unfoldable pub run : List Happening → Picker → Picker
  unfolding act
  run [] p = p
  run (h ∷ hs) p = run hs (act h p)

  unfoldable pub opened : (initial_path : String) → Picker
  unfolding fetch_dir
  opened initial_path = fetch_dir initial_path (record {
    listing = none;
    loading = true;
    query = "";
    request_id = "";
    tried_home_fallback = false;
    drawn = 0;
    sent = [];
    picked = [];
  })
