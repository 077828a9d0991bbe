-- ===== src/Session/Title.antt =====
-- server/sessions.ts: the title of a session, `opts.title?.trim() || defaultTitle(agent, cwd)`.
use Prim.Native.Char.{Char, code}
use agent_web_mvp.Prelude.{
  String, Bool, true, false, ◌&&◌, ◌||◌, Option, none, some, if◌then◌else◌, ◌==◌, ◌<>◌, nat_eq,
  or_else,
}
use agent_web_mvp.Types.AuthDetect.{is_space}

trim_start : String → String
unfolding is_space
trim_start String.[] = String.[]
trim_start (String.◌∷◌ c s) =
    let rest = trim_start s in if is_space (code c) then rest else String.◌∷◌ c s

trim_end : String → String
unfolding is_space
trim_end String.[] = String.[]
trim_end (String.◌∷◌ c s) =
    let rest = trim_end s in
    if is_space (code c) && rest == "" then String.[] else String.◌∷◌ c rest

unfoldable pub trim : String → String
unfolding trim_start trim_end
trim s = trim_end (trim_start s)

abbrev is_separator : Char → Bool
is_separator c = nat_eq (code c) b'/' || nat_eq (code c) 92

-- The last part of a path that is not empty: `cur` is the part that is being read, `best` the last
-- part before it.
last_part : Option String → String → String → Option String
last_part best cur String.[] = if cur == "" then best else some cur
last_part best cur (String.◌∷◌ c s) =
    last_part (if is_separator c && (if cur == "" then false else true) then some cur else best)
      (if is_separator c then "" else cur <> String.◌∷◌ c String.[]) s

unfoldable pub default_title : String → String → String
unfolding last_part ◌<>◌
default_title agent cwd = agent <> " · " <> or_else (last_part none "" cwd) cwd

trimmed : Option String → String
unfolding trim
trimmed none = ""
trimmed (some t) = trim t

unfoldable pub title_of : Option String → String → String → String
unfolding trimmed default_title
title_of title agent cwd = if trimmed title == "" then default_title agent cwd else trimmed title
