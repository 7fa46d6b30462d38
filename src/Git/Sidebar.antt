-- ===== src/Git/Sidebar.antt =====
-- The side bar: web/src/features/files/GitFilesSidebar.tsx. `encode` is `encodeURIComponent`, and
-- `token` what localStorage holds.
pub mod Busy
pub mod Selected
pub mod Groups
mod Tests
use mobilecoding.Base.{
  ℕ, String, Bool, true, false, not, ◌&&◌, Option, none, some, List, [], ◌∷◌, ◌++◌, ◌==◌, concat,
  filter, get_elem?, truthy, text_of, or_text, if◌then◌else◌,
}
use mobilecoding.Git.{GitFileStatus, Reply, answer, not_ok, thrown, Asked, message_or, remove_at}

pub record Sidebar : Type 0 where
  pub files : List GitFileStatus
  pub loading : Bool
  pub error : Option String
  pub selected_file : Option String
  pub diff : String
  pub loading_diff : Bool

abbrev pub new_sidebar : Sidebar
new_sidebar = record {
  files = [];
  loading = true;
  error = none;
  selected_file = none;
  diff = "";
  loading_diff = false;
}

pub record Page : Type 0 where
  pub cwd : Option String
  pub view : Sidebar
  pub statuses : List (Asked (Option String))
  pub diffs : List (Asked String)

-- `loadGitStatus` from its first await on.
unfoldable pub status_replied : Reply (Option (List GitFileStatus)) → Sidebar → Sidebar
status_replied (answer none) v = record v { files = []; loading = false }
status_replied (answer (some fs)) v = record v { files = fs; loading = false }
status_replied (not_ok txt) v = record v {
  error = some (concat "加载 git 状态失败: " txt);
  loading = false;
}
status_replied (thrown msg) v = record v {
  error = some (message_or "加载 git 状态失败" msg);
  loading = false;
}

-- The text that `loadDiff` shows in the end.
unfoldable pub shown_diff : Reply String → String
shown_diff (answer d) = or_text d "无变更"
shown_diff (not_ok txt) = "加载 diff 失败"
shown_diff (thrown msg) = message_or "加载 diff 失败" msg

-- `loadDiff` from its first await on.
unfoldable pub diff_replied : Reply String → Sidebar → Sidebar
diff_replied r v = record v { diff = shown_diff r; loading_diff = false }

-- The three groups of the list.
unfoldable pub staged_files : List GitFileStatus → List GitFileStatus
staged_files files = filter (λ (f : GitFileStatus). f.staged) files

unfoldable pub unstaged_files : List GitFileStatus → List GitFileStatus
unstaged_files files = filter (λ (f : GitFileStatus). not f.staged && not (f.status == "??")) files

unfoldable pub untracked_files : List GitFileStatus → List GitFileStatus
untracked_files files = filter (λ (f : GitFileStatus). f.status == "??") files

unfoldable pub status_label : String → String
status_label status =
    if status == "M"
    then "已修改"
    else if status == "A"
    then "新增"
    else if status == "D"
    then "已删除"
    else if status == "R"
    then "已重命名"
    else if status == "??"
    then "未跟踪"
    else status

pub data Event : Type 0 where
  -- the effect on `cwd`, which also runs when the side bar appears
  changes_cwd : Option String → Event
  refreshes : Event
  selects : String → Event
  closes_diff : Event
  status_reply : ℕ → Reply (Option (List GitFileStatus)) → Event
  diff_reply : ℕ → Reply String → Event

module _ (encode : String → String) (token : Option String) where
  abbrev pub bearer : String → String
  bearer t = concat "Bearer " t

  unfoldable pub status_url : Option String → String
  status_url cwd =
      if truthy cwd
      then concat "/api/v1/git/status?cwd=" (encode (text_of cwd))
      else "/api/v1/git/status"

  unfoldable pub diff_url : Option String → String → String
  diff_url cwd path =
      if truthy cwd
      then concat "/api/v1/git/diff?cwd="
          (concat (encode (text_of cwd)) (concat "&file=" (encode path)))
      else concat "/api/v1/git/diff?file=" (encode path)

  -- `loadGitStatus` up to its first await.
  unfoldable pub load_git_status : Page → Page
  load_git_status p =
      let v : Sidebar = record p.view { loading = true; error = none } in
      if truthy token
      then record p {
        view = v;
        statuses =
            p.statuses
            ++ record {
              about = p.cwd;
              url = status_url p.cwd;
              authorization = bearer (text_of token);
            }
              ∷ [];
      }
      else record p { view = record v { error = some "未找到认证令牌"; loading = false } }

  -- `${token}` of a token that is `null`.
  abbrev pub null_text : Option String → String
  null_text none = "null"
  null_text (some t) = t

  abbrev pub diff_request : String → Page → Asked String
  diff_request path p = record {
    about = path;
    url = diff_url p.cwd path;
    authorization = bearer (null_text token);
  }

  -- `loadDiff` up to its first await.
  unfoldable pub load_diff : String → Page → Page
  load_diff path p = record p {
    view = record p.view { loading_diff = true; selected_file = some path };
    diffs = p.diffs ++ diff_request path p ∷ [];
  }

  -- A reply is to the request at that place of those in flight; without one nothing comes.
  unfoldable pub step_sidebar : Event → Page → Page
  step_sidebar (changes_cwd cwd) p = load_git_status (record p { cwd = cwd })
  step_sidebar refreshes p = load_git_status p
  step_sidebar (selects path) p = load_diff path p
  step_sidebar closes_diff p = record p { view = record p.view { selected_file = none } }
  step_sidebar (status_reply n r) p = elim (get_elem? p.statuses n) [
    | none ↦ p
    | some q ↦ record p { view = status_replied r p.view; statuses = remove_at n p.statuses }
  ]
  step_sidebar (diff_reply n r) p = elim (get_elem? p.diffs n) [
    | none ↦ p
    | some q ↦ record p { view = diff_replied r p.view; diffs = remove_at n p.diffs }
  ]

  unfoldable pub run_sidebar : List Event → Page → Page
  run_sidebar [] p = p
  run_sidebar (e ∷ es) p = run_sidebar es (step_sidebar e p)

  -- The side bar as it appears.
  unfoldable pub open_sidebar : Option String → Page
  open_sidebar cwd =
      load_git_status (record { cwd = cwd; view = new_sidebar; statuses = []; diffs = [] })
