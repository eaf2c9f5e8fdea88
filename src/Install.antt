-- ===== src/Install.antt =====
-- The installer of sensors into target images (bin/install_sensors.py): what the definition files
-- hold, and the operations of `os`, `os.path` and `shutil` that it uses, as an interface.
mod Tests
pub mod Find
pub mod Check
pub mod Place
pub mod Scripts
pub mod Service
pub mod Run
use virt_ue_sensing.Base.{
  ◌≡◌, Bool, true, false, Option, some, none, List, [], ◌∷◌, map, if◌then◌else◌,
}
use virt_ue_sensing.Base.Text.{Text, codes, text_eq, text_Eq}
use virt_ue_sensing.Base.Dict.{Dict, get, contains}
use virt_ue_sensing.Base.Fallible.{◌>>=◌, ◌>>◌}
use virt_ue_sensing.Base.Exec.{Result, ok, err, or_raise, Exec, pure, key_error, type_error}

-- A JSON value in a list of a definition: a text, an object with texts, or a number, a boolean or
-- null. No definition has a list in a list.
pub data Item : Type 0 where
  text_item : Text → Item
  dict_item : Dict Text Text → Item
  scalar_item : Item

-- A JSON value of a definition; of an object only the keys are looked at, of a number, a boolean or
-- null only the truth value.
pub data Field : Type 0 where
  text_field : Text → Field
  list_field : List Item → Field
  dict_field : List Text → Field
  scalar_field : Bool → Field

-- The object of a JSON file; its `name` is a text where there is one.
pub record Doc : Type 0 where
  pub name : Option Text
  pub fields : Dict Text Field

-- What `find_sensors`, `find_kmods` and `find_targets` list; `doc` is the entry "sensor",
-- "kernel_module" or "target".
pub record Found : Type 0 where
  pub root : Text
  pub doc : Doc
  pub name : Text

-- `k in doc`
unfoldable pub has_key : Text → Doc → Bool
unfolding text_eq contains
has_key k d =
    if text_eq k (codes "name")
    then elim d.name [ some _ ↦ true | none ↦ false ]
    else contains k d.fields

-- `doc[k]` for another key than the name.
unfoldable pub entry : Text → Doc → Result Field
unfolding get
entry k d = or_raise key_error (get k d.fields)

-- What `for x in value` goes through.
abbrev pub iterate : Field → Result (List Item)
iterate (text_field t) = ok (map (λ c. text_item (c ∷ [])) t)
iterate (list_field xs) = ok xs
iterate (dict_field ks) = ok (map text_item ks)
iterate (scalar_field _) = err type_error

abbrev pub truthy : Field → Bool
truthy (text_field []) = false
truthy (text_field (_ ∷ _)) = true
truthy (list_field []) = false
truthy (list_field (_ ∷ _)) = true
truthy (dict_field []) = false
truthy (dict_field (_ ∷ _)) = true
truthy (scalar_field b) = b

-- `value == t`
unfoldable pub field_is : Text → Field → Bool
unfolding text_eq
field_is t (text_field s) = text_eq s t
field_is t _ = false

-- A value where `os.path.join` and `str.join` need a text.
abbrev pub text_of : Field → Result Text
text_of (text_field t) = ok t
text_of _ = err type_error

abbrev pub text_of_item : Item → Result Text
text_of_item (text_item t) = ok t
text_of_item _ = err type_error

-- `platform.system()` and `sys.platform`.
pub record Host : Type 0 where
  pub system : Text
  pub platform : Text

unfoldable pub is_windows : Host → Bool
unfolding text_eq
is_windows h = text_eq h.system (codes "Windows")

unfoldable pub is_win32 : Host → Bool
unfolding text_eq
is_win32 h = text_eq h.platform (codes "win32")

-- A directory that `os.walk` goes through, with the names of its files.
pub record Visit : Type 0 where
  pub root : Text
  pub files : List Text

-- What the installer uses of `os`, `os.path`, `shutil` and `open`, on a state `S` of the disk.
pub record Fs {ℓ} (S : Type ℓ) : Type ℓ where
  pub join : Text → Text → Text
  pub abspath : Text → Text
  pub dirname : Text → Text
  pub basename : Text → Text
  pub relpath : Text → Text → Text
  pub exists : Text → S → Bool
  pub isfile : Text → S → Bool
  pub walk : Text → S → List Visit
  pub listdir : Text → Exec S (List Text)
  pub rmtree : Text → Exec S (Unit {0})
  pub makedirs : Text → Exec S (Unit {0})
  pub copy : Text → Text → Exec S (Unit {0})
  pub copytree : Text → Text → Exec S (Unit {0})
  pub write : Text → Text → Exec S (Unit {0})

-- `for x in xs: f(x)`
abbrev pub each {ℓ κ} :
    {S : Type ℓ} {A : Type κ} → (A → Exec S (Unit {0})) → List A → Exec S (Unit {0})
each f [] s = (ok tt, s)
each f (x ∷ xs) s = let (r, s') = f x s in elim r [ ok _ ↦ each f xs s' | err e ↦ (err e, s') ]
