-- ===== src/Phone/Setup/Profiles.antt =====
-- The profile in the keychain: mobile/src/services/auth/AuthService.ts. The keychain is that of the
-- system, reached by a library: one user name with one password for each service. The service is the
-- same in all calls. A password stands for the profile whose JSON text it is.
use mobilecoding.Base.{◌≡◌, refl, String, Option, none, some, List, [], ◌∷◌, ◌==◌, if◌then◌else◌}
use mobilecoding.Phone.Setup.{ServerProfile}

-- The keychain of the service, with what its library documents.
pub record Keychain : Type 1 where
  pub State : Type 0
  pub set_generic_password : String → ServerProfile → State → State
  pub get_generic_password : State → Option (String × ServerProfile)
  pub reset_generic_password : State → State
  pub get-set :
      (u : String) (p : ServerProfile) (s : State)
      → get_generic_password (set_generic_password u p s) ≡ some (u, p)
  pub get-reset : (s : State) → get_generic_password (reset_generic_password s) ≡ none

pub data Use : Type 0 where
  saves : ServerProfile → Use
  deletes : String → Use

-- `profile.id === id ? profile : null`
abbrev pub matching : String → Option ServerProfile → Option ServerProfile
matching id none = none
matching id (some p) = if p.id == id then some p else none

abbrev pub password_of : Option (String × ServerProfile) → Option ServerProfile
password_of none = none
password_of (some (u, p)) = some p

module _ (k : Keychain) where
  open k use {State, set_generic_password, get_generic_password, reset_generic_password}

  unfoldable pub save_profile : ServerProfile → State → State
  save_profile p s = set_generic_password p.id p s

  unfoldable pub load_profile : String → State → Option ServerProfile
  load_profile id s = matching id (password_of (get_generic_password s))

  unfoldable pub delete_profile : String → State → State
  delete_profile id s = reset_generic_password s

  unfoldable pub use_one : Use → State → State
  use_one (saves p) s = save_profile p s
  use_one (deletes id) s = delete_profile id s

  unfoldable pub use_all : List Use → State → State
  use_all [] s = s
  use_all (u ∷ us) s = use_all us (use_one u s)

-- One place for a profile: what the uses leave in it.
abbrev pub slot : List Use → Option ServerProfile → Option ServerProfile
slot [] o = o
slot (saves p ∷ us) o = slot us (some p)
slot (deletes id ∷ us) o = slot us none

module _ (k : Keychain) where
  open k use {State, get_generic_password}

  use_all-slot :
      (us : List Use) (s : State) (o : Option ServerProfile)
      → password_of (get_generic_password s) ≡ o
      → password_of (get_generic_password (use_all k us s)) ≡ slot us o
  unfolding use_all use_one save_profile delete_profile
  use_all-slot [] s o e = e
  use_all-slot (saves p ∷ us) s o e = use_all-slot us _ _ (rw (k.get-set p.id p s) refl)
  use_all-slot (deletes id ∷ us) s o e = use_all-slot us _ _ (rw (k.get-reset s) refl)

  -- After any uses of an empty keychain, a profile is loaded exactly if it is the last one that was
  -- saved, has the id, and no profile was deleted since, by whatever id: there is one place for
  -- all profiles.
  pub load_profile-slot :
      (us : List Use) (s : State) (id : String)
      → get_generic_password s ≡ none
      → load_profile k id (use_all k us s) ≡ matching id (slot us none)
  unfolding load_profile
  load_profile-slot us s id e = rw (use_all-slot us s none (rw e refl)) refl
