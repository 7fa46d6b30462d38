-- ===== src/Git/Dialog.antt =====
-- The dialog of the phone: mobile/src/components/terminal/GitDiffModal.tsx. `encode` is
-- `encodeURIComponent`; the server's address and the token are those of the screen. Each opening of the dialog has a number, which stands for the variable
-- `cancelled` that its load closes over.
pub mod Current
pub mod Hidden
pub mod Lines
mod Tests
use mobilecoding.Base.{
  ℕ, suc, String, Bool, true, false, Option, none, some, List, [], ◌∷◌, ◌++◌, ◌==◌, concat, eqb,
  get_elem?, set, map, or_text, text_of, if◌then◌else◌,
}
use mobilecoding.Json.{Json, arr, Items, nil}
use mobilecoding.Git.{Reply, answer, not_ok, thrown, Asked, message_or, remove_at}

pub record Dialog : Type 0 where
  pub visible : Bool
  pub files : Items
  pub loading : Bool
  pub selected_file : Option String
  pub diff_content : String
  pub loading_diff : Bool
  pub cwd : String

-- What a load awaits.
pub data Stage : Type 0 where
  asks_version asks_status : Stage

pub record Load : Type 0 where
  pub opening : ℕ
  pub cancelled : Bool
  pub stage : Stage
  pub url : String
  pub authorization : Option String

pub record Screen : Type 0 where
  pub openings : ℕ
  pub view : Dialog
  pub loads : List Load
  pub diffs : List (Asked String)

abbrev pub new_screen : Screen
new_screen = record {
  openings = 0;
  view = record {
    visible = false;
    files = nil;
    loading = false;
    selected_file = none;
    diff_content = "";
    loading_diff = false;
    cwd = "";
  };
  loads = [];
  diffs = [];
}

-- The cleanup of the effect: `cancelled = true`.
unfoldable pub cancel : ℕ → List Load → List Load
cancel n ls = map (λ (l : Load). if eqb l.opening n then record l { cancelled = true } else l) ls

unfoldable pub hide : Screen → Screen
hide s =
    if s.view.visible
    then record s { view = record s.view { visible = false }; loads = cancel s.openings s.loads }
    else s

-- `handleClose`, whose `onClose` hides the dialog.
unfoldable pub handle_close : Screen → Screen
handle_close s =
    hide (record s { view = record s.view { selected_file = none; diff_content = "" } })

-- `Array.isArray(statusData) ? statusData : []`
unfoldable pub array_or_none : Json → Items
array_or_none (arr xs) = xs
array_or_none _ = nil

-- The `catch` and the `finally` of `loadData`.
unfoldable pub load_fails : Bool → Dialog → Dialog
load_fails cancelled v = if cancelled then v else record v { files = nil; loading = false }

unfoldable pub load_ends : Bool → Json → Dialog → Dialog
load_ends cancelled j v =
    if cancelled then v else record v { files = array_or_none j; loading = false }

unfoldable pub shown_content : Reply String → String
shown_content (answer d) = or_text d "(无差异)"
shown_content (not_ok status) = concat "获取失败: git/diff HTTP " status
shown_content (thrown msg) = concat "获取失败: " (message_or "undefined" msg)

unfoldable pub status_icon : String → Bool → String
status_icon status staged =
    if staged then "✓" else if status == "M" then "●" else if status == "D" then "✗" else "?"

pub data DialogEvent : Type 0 where
  shows closes : DialogEvent
  -- the answer to a load, at its place, with the directory or with the list
  version_reply : ℕ → Reply (Option String) → DialogEvent
  status_reply : ℕ → Reply Json → DialogEvent
  selects : String → DialogEvent
  diff_reply : ℕ → Reply String → DialogEvent

module _ (encode : String → String) (base_url token : String) where
  -- The effect on `visible`, and `loadData` up to its first await.
  unfoldable pub show : Screen → Screen
  show s = if s.view.visible then s else record s {
    openings = suc s.openings;
    view = record s.view { visible = true; loading = true };
    loads =
        s.loads
        ++ record {
          opening = suc s.openings;
          cancelled = false;
          stage = asks_version;
          url = concat base_url "/version";
          authorization = none;
        }
          ∷ [];
  }

  abbrev pub status_url : String → String
  status_url cwd = concat base_url (concat "/api/v1/git/status?cwd=" (encode cwd))

  abbrev pub asks_list : Load → String → Load
  asks_list l cwd = record l {
    stage = asks_status;
    url = status_url cwd;
    authorization = some (concat "Bearer " token);
  }

  -- `loadData` from its first await to its second.
  unfoldable pub version_replied : ℕ → Load → Reply (Option String) → Screen → Screen
  version_replied n l (answer c) s =
      if l.cancelled then record s { loads = remove_at n s.loads } else record s {
        view = record s.view { cwd = text_of c };
        loads = set s.loads n (asks_list l (text_of c));
      }
  version_replied n l _ s = record s {
    view = load_fails l.cancelled s.view;
    loads = remove_at n s.loads;
  }

  -- `loadData` from its second await on.
  unfoldable pub status_replied : ℕ → Load → Reply Json → Screen → Screen
  status_replied n l (answer j) s = record s {
    view = load_ends l.cancelled j s.view;
    loads = remove_at n s.loads;
  }
  status_replied n l _ s = record s {
    view = load_fails l.cancelled s.view;
    loads = remove_at n s.loads;
  }

  -- `loadDiff` up to its first await.
  unfoldable pub load_diff : String → Screen → Screen
  load_diff path s = record s {
    view = record s.view { selected_file = some path; loading_diff = true; diff_content = "" };
    diffs =
        s.diffs
        ++ record {
          about = path;
          url = concat base_url (
              concat "/api/v1/git/diff?cwd="
                (concat (encode s.view.cwd) (concat "&file=" (encode path))));
          authorization = concat "Bearer " token;
        }
          ∷ [];
  }

  unfoldable pub diff_replied : Reply String → Dialog → Dialog
  diff_replied r v = record v { diff_content = shown_content r; loading_diff = false }

  abbrev pub version_at : ℕ → Reply (Option String) → Option Load → Screen → Screen
  version_at n r none s = s
  version_at n r (some l) s = elim l.stage [
    | asks_version ↦ version_replied n l r s
    | asks_status ↦ s
  ]

  abbrev pub status_at : ℕ → Reply Json → Option Load → Screen → Screen
  status_at n r none s = s
  status_at n r (some l) s = elim l.stage [
    | asks_version ↦ s
    | asks_status ↦ status_replied n l r s
  ]

  -- A reply is to the load or the request at its place; without one that awaits it, nothing comes.
  unfoldable pub step_dialog : DialogEvent → Screen → Screen
  step_dialog shows s = show s
  step_dialog closes s = handle_close s
  step_dialog (version_reply n r) s = version_at n r (get_elem? s.loads n) s
  step_dialog (status_reply n r) s = status_at n r (get_elem? s.loads n) s
  step_dialog (selects path) s = load_diff path s
  step_dialog (diff_reply n r) s = elim (get_elem? s.diffs n) [
    | none ↦ s
    | some q ↦ record s { view = diff_replied r s.view; diffs = remove_at n s.diffs }
  ]

  unfoldable pub run_dialog : List DialogEvent → Screen → Screen
  run_dialog [] s = s
  run_dialog (e ∷ es) s = run_dialog es (step_dialog e s)
