-- ===== src/Models.antt =====
-- The wire enums of models.rs (crates/tzibbur-api/src/models.rs): group kinds, roles, permissions.
-- A text is compared by its code points.
pub mod Texts
use Prim.Native.Char.{code}
use un_tzibbur_bot.Base.{
  ℕ, ◌+◌, ◌-◌, String, Bool, true, false, not, ◌&&◌, ◌||◌, Option, none, some, List, [], ◌∷◌, map,
  leb, ◌==◌, if◌then◌else◌,
}

abbrev pub codes : String → List ℕ
codes String.[] = []
codes (String.◌∷◌ first rest) = code first ∷ codes rest

unfoldable pub ascii_lowercase : ℕ → ℕ
ascii_lowercase c = if leb b'A' c && leb c b'Z' then c + 32 else c

pub ascii_uppercase : ℕ → ℕ
ascii_uppercase c = if leb b'a' c && leb c b'z' then c - 32 else c

abbrev pub text_eq : List ℕ → List ℕ → Bool
text_eq [] [] = true
text_eq (a ∷ s) (b ∷ t) = a == b && text_eq s t
text_eq _ _ = false

pub starts_with : List ℕ → List ℕ → Bool
starts_with s [] = true
starts_with [] (b ∷ t) = false
starts_with (a ∷ s) (b ∷ t) = a == b && starts_with s t

-- `str::contains`
unfoldable pub contains : List ℕ → List ℕ → Bool
unfolding starts_with
contains [] t = starts_with [] t
contains (a ∷ s) t = starts_with (a ∷ s) t || contains s t

unfoldable pub to_ascii_lowercase : String → List ℕ
unfolding ascii_lowercase
to_ascii_lowercase s = map ascii_lowercase (codes s)

unfoldable pub to_ascii_uppercase : String → List ℕ
unfolding ascii_uppercase
to_ascii_uppercase s = map ascii_uppercase (codes s)

pub data GroupKind : Type 0 where
  standard system rules unknown : GroupKind

unfoldable pub kind_as_str : GroupKind → String
kind_as_str GroupKind.standard = "standard"
kind_as_str GroupKind.system = "system"
kind_as_str GroupKind.rules = "rules"
kind_as_str GroupKind.unknown = "unknown"

abbrev pub kind_of : List ℕ → GroupKind
kind_of t =
    if text_eq t (codes "standard")
    then GroupKind.standard
    else if text_eq t (codes "system")
    then GroupKind.system
    else if text_eq t (codes "rules")
    then GroupKind.rules
    else GroupKind.unknown

unfoldable pub kind_parse : String → GroupKind
unfolding to_ascii_lowercase
kind_parse s = kind_of (to_ascii_lowercase s)

abbrev pub is_system_kind : GroupKind → Bool
is_system_kind GroupKind.system = true
is_system_kind _ = false

pub data Role : Type 0 where
  admin member : Role

unfoldable pub role_as_str : Role → String
role_as_str Role.admin = "admin"
role_as_str Role.member = "member"

abbrev pub role_of : List ℕ → Option Role
role_of t =
    if text_eq t (codes "admin")
    then some Role.admin
    else if text_eq t (codes "member")
    then some Role.member
    else none

unfoldable pub role_parse : String → Option Role
unfolding to_ascii_lowercase
role_parse s = role_of (to_ascii_lowercase s)

abbrev pub is_admin_role : Role → Bool
is_admin_role Role.admin = true
is_admin_role Role.member = false

-- The open newtype `Permission(String)`.
pub record Permission : Type 0 where
  pub slug : String

abbrev pub everyone : Permission
everyone = record { slug = "everyone" }

abbrev pub admins : Permission
admins = record { slug = "admins" }

-- `Permission::allows`
unfoldable pub allows : Permission → Role → Bool
unfolding to_ascii_uppercase contains
allows p Role.admin = true
allows p Role.member =
    let s = to_ascii_uppercase p.slug in
    not (contains s (codes "ADMIN") || contains s (codes "OWNER"))
