-- ===== src/Models/Texts.antt =====
-- The texts of the wire enums of models.rs and their readers.
use Prim.Native.String.{String}
use un_tzibbur_bot.Base.{◌≡◌, refl, ap, some}
use un_tzibbur_bot.Models.{
  GroupKind, Role, to_ascii_lowercase, kind_as_str, kind_parse, role_as_str, role_parse, kind_of,
  role_of,
}

kinds-parse : (k : GroupKind) → kind_parse (kind_as_str k) ≡ k
unfolding kind_parse kind_as_str
kinds-parse GroupKind.standard = refl
kinds-parse GroupKind.system = refl
kinds-parse GroupKind.rules = refl
kinds-parse GroupKind.unknown = refl

roles-parse : (r : Role) → role_parse (role_as_str r) ≡ some r
unfolding role_parse role_as_str
roles-parse Role.admin = refl
roles-parse Role.member = refl

folded :
    (s t : String)
    → to_ascii_lowercase s ≡ to_ascii_lowercase t
    → (kind_parse s ≡ kind_parse t) × (role_parse s ≡ role_parse t)
unfolding kind_parse role_parse
folded s t e = (ap kind_of e, ap role_of e)

-- What is written for a kind or a role is read back as it, and a reader sees no more of a text
-- than its lower-case form.
pub parse-as_str :
    ((k : GroupKind) → kind_parse (kind_as_str k) ≡ k)
    × ((r : Role) → role_parse (role_as_str r) ≡ some r)
    × ((s t : String)
        → to_ascii_lowercase s ≡ to_ascii_lowercase t
        → (kind_parse s ≡ kind_parse t) × (role_parse s ≡ role_parse t))
parse-as_str = (kinds-parse, roles-parse, folded)
