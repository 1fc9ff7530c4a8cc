-- ===== src/Dashboard/Config.antt =====
-- dashboard/src/pages/Config.tsx. The page edits a clone of the configuration as an untyped object;
-- a clone is the same value here, since values are not shared.
pub mod Laws
pub mod Update
use Prim.Native.Char.{code}
use Prim.Native.String.{◌++◌}
use go_php.Prelude.{
  ℕ, String, Option, none, some, Bool, true, false, ◌||◌, List, [], ◌∷◌, ◌==◌, str_eq,
  if◌then◌else◌,
}
use go_php.Prelude.Decimal.{parse_int, int_or_zero}
use go_php.Prelude.Names.{contains}
use go_php.Dashboard.Json.{
  Json, Fields, undefined, text, num, bool, array, object, get_field, set_field,
}
use go_php.Dashboard.Hooks.{
  Fetch, Settled, resolved, rejected, message_or, mounts, unmounts, refetches, settles,
}
use go_php.Dashboard.Hooks
use go_php.Dashboard.Notice.{Toast, toast, success, error}

-- path.split('.'): the parts between the dots, of which there is at least one.
split_from : String → String → List String
split_from cur String.[] = cur ∷ []
split_from cur (String.◌∷◌ c s) =
    let closed = cur ∷ split_from "" s in
    let longer = split_from (cur ++ String.◌∷◌ c "") s in if code c == b'.' then closed else longer

unfoldable pub split_dots : String → List String
unfolding split_from
split_dots s = split_from "" s

-- How the loop of `update` ends: with the changed object, with a TypeError, or outside of what is
-- followed here. The walk is followed through the own members of plain objects; what arrays, the
-- prototypes and the members of primitive values do to it is not.
pub data Walked : Type 0 where
  done : Json → Walked
  throws outside : Walked

-- The members that a plain object inherits.
abbrev inherited_names : List String
inherited_names =
    "__proto__" ∷ "constructor" ∷ "hasOwnProperty" ∷ "isPrototypeOf" ∷ "propertyIsEnumerable"
    ∷ "toLocaleString" ∷ "toString" ∷ "valueOf" ∷ "__defineGetter__" ∷ "__defineSetter__"
    ∷ "__lookupGetter__" ∷ "__lookupSetter__" ∷ []

unfoldable pub is_inherited : String → Bool
unfolding contains
is_inherited k = contains k inherited_names

abbrev pub put_inner : String → Fields → Walked → Walked
put_inner k m (done inner) = done (object (set_field k inner m))
put_inner k m throws = throws
put_inner k m outside = outside

-- The last key: `undefined` has no members, and a primitive value takes none in strict mode.
-- `__proto__` is a setter.
set_last : String → Json → Json → Walked
set_last k v (object m) = done (object (set_field k v m))
set_last k v (array xs) = outside
set_last k v _ = throws

unfoldable pub assign : List String → Json → Json → Walked
unfolding set_last is_inherited
assign [] v obj = outside
assign (k ∷ []) v obj = if str_eq k "__proto__" then outside else set_last k v obj
assign (k ∷ j ∷ ks) v (object m) =
    let rest = assign (j ∷ ks) v (get_field k m) in
    if is_inherited k then outside else put_inner k m rest
assign (k ∷ j ∷ ks) v undefined = throws
assign (k ∷ j ∷ ks) v _ = outside

-- The loop of `update` over path.split('.').
unfoldable pub update : String → Json → Json → Walked
unfolding split_dots assign
update path v obj = assign (split_dots path) v obj

-- The fields of the form that write, with the paths that they give to `update`.
pub data FormField : Type 0 where
  server_addr read_timeout write_timeout binary socket_path max_children request_timeout : FormField
  log_format log_level symlink_mode max_body_size : FormField

abbrev pub path_of : FormField → String
path_of server_addr = "server.addr"
path_of read_timeout = "server.read_timeout"
path_of write_timeout = "server.write_timeout"
path_of binary = "php.binary"
path_of socket_path = "php.socket_path"
path_of max_children = "php.max_children"
path_of request_timeout = "php.request_timeout"
path_of log_format = "logging.format"
path_of log_level = "logging.level"
path_of symlink_mode = "security.symlink_mode"
path_of max_body_size = "security.max_body_size"

pub record Page : Type 0 where
  pub config : Fetch Json
  pub local : Option Json
  pub toast_ : Option Toast
  pub saving : Bool

unfoldable pub initial : Page
unfolding Hooks.initial
initial = record { config = Hooks.initial; local = none; toast_ = none; saving = false }

-- The effect on [config]: a value that has arrived replaces the edits.
arrive : Hooks.Event Json → Page → Page
arrive (settles (resolved c)) p = if p.config.mounted then record p { local = some c } else p
arrive (settles (rejected e)) p = p
arrive mounts p = p
arrive unmounts p = p
arrive refetches p = p

-- The `Reset` button.
unfoldable pub reset : Page → Page
reset p = elim p.config.value [ none ↦ p | some c ↦ record p { local = some c } ]

-- handleSave up to its await: the body that is sent, if there is one. The button is disabled while
-- `saving`.
unfoldable pub start_save : Page → Page × Option Json
start_save p =
    if p.saving
    then (p, none)
    else elim p.local [ none ↦ (p, none) | some c ↦ (record p { saving = true }, some c) ]

unfoldable pub save_settled : Settled (Unit {0}) → Page → Page
unfolding Hooks.load
save_settled (resolved _) p = record p {
  toast_ = toast "Configuration saved" success;
  config = Hooks.load p.config;
  saving = false;
}
save_settled (rejected e) p = record p {
  toast_ = toast (message_or e "Failed to save") error;
  saving = false;
}

-- An edit that throws leaves the page. None of the form's is outside: their keys are no inherited names,
-- and on a configuration they lead through objects.
unfoldable pub edit : FormField → Json → Page → Page
edit f v p = elim p.local [
  | none ↦ p
  | some c ↦ elim (update (path_of f) v c) [
    | throws ↦ p
    | outside ↦ p
    | done c' ↦ record p { local = some c' }
  ]
]

-- The page shows its form, or else the loading text.
unfoldable pub shows_form : Page → Bool
shows_form p = if p.config.loading then false else elim p.local [ none ↦ false | some c ↦ true ]

pub data Event : Type 0 where
  fetches : Hooks.Event Json → Event
  edits : FormField → Json → Event
  resets saves closes_toast : Event
  saved : Settled (Unit {0}) → Event

-- The buttons and fields are there while the form is shown.
unfoldable pub step : Page → Event → Page
unfolding arrive
step p (fetches e) = arrive e (record p { config = Hooks.step p.config e })
step p (edits f v) = if shows_form p then edit f v p else p
step p resets = if shows_form p then reset p else p
step p saves = if shows_form p then (start_save p).0 else p
step p closes_toast = record p { toast_ = none }
step p (saved r) = save_settled r p

unfoldable pub run : Page → List Event → Page
run p [] = p
run p (e ∷ es) = run (step p e) es

-- What the field of max_children gives to `update`.
unfoldable pub max_children_value : String → Json
unfolding parse_int
max_children_value v = num (int_or_zero (parse_int v))
