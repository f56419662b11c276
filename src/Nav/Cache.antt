-- ===== src/Nav/Cache.antt =====
-- `NavCommandContextCache`: the context of the last command, as long as it is of the same session.
use pi_pilot.Base.{
  String, Bool, true, false, Option, none, some, if◌then◌else◌, same, string_key, is_some,
}

pub record Cache (C : Type 0) : Type 0 where
  pub cached : Option C
  pub cached_session_file : Option String

abbrev pub is_file : String → Option String → Bool
is_file current none = false
is_file current (some file) = same current file

abbrev pub is_other : Option String → String → Bool
is_other none current = false
is_other (some file) current = if same current file then false else true

-- The file that a context's session has; a getter that throws gives none.
module _ {C : Type 0} where
  abbrev pub invalidate : Cache C
  invalidate = record { cached = none; cached_session_file = none }

  unfoldable pub remember : (C → Option String) → C → Cache C
  remember read_session_file ctx = record {
    cached = some ctx;
    cached_session_file = read_session_file ctx;
  }

  abbrev pub get_at : Option String → C → Option String → Cache C → Cache C × Option C
  get_at expected ctx none c = (invalidate, none)
  get_at expected ctx (some current) c =
      if is_file current c.cached_session_file
      then (c, if is_other expected current then none else some ctx)
      else (invalidate, none)

  abbrev pub get_cached :
      (C → Option String) → Option String → Option C → Cache C → Cache C × Option C
  get_cached read_session_file expected none c = (c, none)
  get_cached read_session_file expected (some ctx) c = get_at expected ctx (read_session_file ctx) c

  unfoldable pub get : (C → Option String) → Option String → Cache C → Cache C × Option C
  get read_session_file expected c = get_cached read_session_file expected c.cached c

  abbrev pub is_available : (C → Option String) → Cache C → Cache C × Bool
  is_available read_session_file c = let (d, ctx) = get read_session_file none c in (d, is_some ctx)
