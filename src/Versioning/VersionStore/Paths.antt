-- ===== src/Versioning/VersionStore/Paths.antt =====
-- `resolveWithinRoot` of backend/versioning/version-store.ts. The path functions of Node are parameters, and
-- the separator is that of a POSIX system.
use Prim.Native.Char.{code}
use cnc_network_bridge.Base.{
  String, Bool, true, false, not, ◌&&◌, ◌||◌, Option, none, some, ◌==◌, if◌then◌else◌, str_eq, ◌<>◌,
}

unfoldable pub has_nul : String → Bool
has_nul String.[] = false
has_nul (String.◌∷◌ c s) = code c == 0 || has_nul s

unfoldable pub starts_with : String → String → Bool
starts_with s String.[] = true
starts_with String.[] (String.◌∷◌ d t) = false
starts_with (String.◌∷◌ c s) (String.◌∷◌ d t) = code c == code d && starts_with s t

module _ (is_absolute : String → Bool) (resolve_path : String → String)
    (resolve_from : String → String → String) where
  -- `none` is the error that the path escapes.
  unfoldable pub resolve_within_root : String → String → Option String
  unfolding has_nul starts_with
  resolve_within_root root rel_path =
      let absolute_root = resolve_path root in
      let candidate = resolve_from absolute_root rel_path in
      if is_absolute rel_path || has_nul rel_path
      then none
      else if not (str_eq candidate absolute_root)
          && not (starts_with candidate (absolute_root <> "/"))
      then none
      else some candidate
