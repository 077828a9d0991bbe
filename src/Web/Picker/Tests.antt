-- ===== src/Web/Picker/Tests.antt =====
-- web/src/components/DirectoryPicker.tsx: a picker whose first directory does not exist.
use agent_web_mvp.Prelude.{◌+◌, ◌≤◌, List, [], ◌∷◌, true, none, some, length}
use agent_web_mvp.Prelude.Tally.{tally}
use agent_web_mvp.Types.{dir_listing}
use agent_web_mvp.Web.Picker.{
  Happening, hears, types_query, enter, clicks_entry, uses_folder, run, opened,
}
use agent_web_mvp.Web.Picker.Requests.{navigations, requests_bounded}

abbrev happenings : List Happening
happenings =
    hears (dir_listing "" "/app" none [] (some "no such directory"))
    ∷ hears (
        dir_listing "a" "/home/u" (some "/home") (record { name = "src"; is_dir = true } ∷ []) none)
    ∷ clicks_entry "src"
    ∷ hears (dir_listing "aa" "/home/u/src" (some "/home/u") [] (some "permission denied"))
    ∷ types_query "~"
    ∷ enter
    ∷ hears (dir_listing "aaa" "/home/u" none [] none)
    ∷ uses_folder
    ∷ []

requests_bounded_example :
    length (run (λ s. s) tally none happenings (opened (λ s. s) tally none "/app")).sent
    ≤ 2 + navigations happenings
requests_bounded_example = requests_bounded (λ s. s) tally none happenings "/app"
