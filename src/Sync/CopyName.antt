-- ===== src/Sync/CopyName.antt =====
-- packages/core/src/storage/conflicts.ts, `buildConflictPath`: the name of a conflict copy.
use Prim.Native.Char.{Char, char, code}
use Prim.Native.String.{◌++◌ as str_append}
use kontexta.Base.{
  String, Bool, ◌&&◌, ◌||◌, Option, none, some, if◌then◌else◌, ◌==◌, nat_eq, string_eq,
}
use kontexta.Json.{JsNumber, Json, nat, other}
use kontexta.Chars.{is_space}
use kontexta.Sync.Op.{show_decimal}

-- Node's `path` and `crypto`, and the two functions that place a path in the data folder.
pub record Env : Type 0 where
  pub dirname : String → String
  pub extname : String → String
  pub basename : String → String → String
  pub join : String → String → String
  pub sha256 : String → String
  pub to_rel_path : String → Option String
  pub resolve_sync_path : Option Json → Option Json → Option String

-- The characters that a file name may not hold.
abbrev is_forbidden : Char → Bool
is_forbidden c =
    code c == b'/'
    || (code c == b'\\'
        || (code c == b':'
            || (code c == b'*'
                || (code c == b'?'
                    || (code c == 34 || (code c == b'<' || (code c == b'>' || code c == b'|')))))))

replace_forbidden : String → String
replace_forbidden String.[] = String.[]
replace_forbidden (String.◌∷◌ c s) =
    String.◌∷◌ (if is_forbidden c then char b'-' tt else c) (replace_forbidden s)

trim_start : String → String
trim_start String.[] = String.[]
trim_start (String.◌∷◌ c s) = let rest = trim_start s in if is_space c then rest else String.◌∷◌ c s

trim_end : String → String
trim_end String.[] = String.[]
trim_end (String.◌∷◌ c s) =
    let rest = trim_end s in if is_space c && rest == "" then "" else String.◌∷◌ c rest

-- `label || "remote"` after the replacements
clean_label : String → String
unfolding replace_forbidden trim_start trim_end
clean_label label =
    let clean = trim_end (trim_start (replace_forbidden label)) in
    if clean == "" then "remote" else clean

-- The time stamp as it is printed; 0 counts as no stamp.
stamp_text : Option JsNumber → String
stamp_text none = ""
stamp_text (some (nat n)) = if n == 0 then "" else str_append " " (show_decimal n)
stamp_text (some (other t)) = str_append " " t

pub build_conflict_path : Env → String → String → Option JsNumber → String
unfolding clean_label stamp_text
build_conflict_path env canonical label stamp =
    let ext = env.extname canonical in
    env.join (env.dirname canonical) (
      str_append (env.basename canonical ext) (
        str_append " (from "
          (str_append (clean_label label) (str_append (stamp_text stamp) (str_append ")" ext)))))
