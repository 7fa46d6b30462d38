-- ===== src/Phone/Terminal/Commands.antt =====
-- The commands of the phone's input, and what becomes of them
-- (mobile/src/screens/TerminalScreen.tsx).
use mobilecoding.Base.{
  ◌≡◌, refl, String, Bool, true, false, not, ◌&&◌, ◌||◌, Option, List, [], ◌∷◌, ◌==◌, All, all,
  Bool-cases, inl, inr, arith, concat, is_empty, if◌then◌else◌,
}
use mobilecoding.Json.{ℤ, Json}
use mobilecoding.Chat.Detect.{trim}
use mobilecoding.Phone.Store.{resets_messages}
use mobilecoding.Phone.Terminal.{
  SlashCommand, CommandMode, passthrough, local, Screen, Request, inputs, select_slash_command,
  fetch_models,
}
use mobilecoding.Phone.Terminal.Handlers.{handle_send, send_text, change}

abbrev pub slash_commands : List SlashCommand
slash_commands =
    record { cmd = "/compact"; desc = "压缩对话上下文"; mode = passthrough }
    ∷ record { cmd = "/clear"; desc = "清空本地消息"; mode = local }
    ∷ record { cmd = "/help"; desc = "显示帮助信息"; mode = passthrough }
    ∷ record { cmd = "/cost"; desc = "显示 Token 用量"; mode = passthrough }
    ∷ record { cmd = "/model"; desc = "切换模型"; mode = local }
    ∷ record { cmd = "/status"; desc = "显示会话状态"; mode = passthrough }
    ∷ record { cmd = "/context"; desc = "查看上下文用量"; mode = passthrough }
    ∷ record { cmd = "/memory"; desc = "查看记忆文件"; mode = passthrough }
    ∷ record { cmd = "/agents"; desc = "查看 Agent 列表"; mode = passthrough }
    ∷ record { cmd = "/bashes"; desc = "查看运行中的 Bash"; mode = passthrough }
    ∷ record { cmd = "/config"; desc = "查看配置"; mode = passthrough }
    ∷ record { cmd = "/init"; desc = "初始化项目记忆文件"; mode = passthrough }
    ∷ record { cmd = "/upgrade"; desc = "升级 Claude Code"; mode = passthrough }
    ∷ record { cmd = "/bug"; desc = "提交 Bug 报告"; mode = passthrough }
    ∷ record { cmd = "/doctor"; desc = "安装/修复 Claude Code"; mode = passthrough }
    ∷ record { cmd = "/login"; desc = "登录"; mode = passthrough }
    ∷ record { cmd = "/logout"; desc = "登出"; mode = passthrough }
    ∷ record { cmd = "/output-style"; desc = "切换输出风格"; mode = passthrough }
    ∷ record { cmd = "/add-dir"; desc = "添加工作目录"; mode = passthrough }
    ∷ record { cmd = "/resume"; desc = "恢复之前的会话"; mode = passthrough }
    ∷ record { cmd = "/terminal-setup"; desc = "终端设置"; mode = passthrough }
    ∷ record { cmd = "/todos"; desc = "查看待办事项"; mode = passthrough }
    ∷ record { cmd = "/export"; desc = "导出对话"; mode = passthrough }
    ∷ []

-- A request that is no input for the session.
abbrev pub IsNoInput : Request → Type 0
IsNoInput (inputs t) = ⊥
IsNoInput _ = Unit

-- A command that passes through is sent as it is, with the space behind it; a local one is no input.
unfoldable pub IsRouted : CommandMode → String → List Request → Type 0
IsRouted passthrough cmd rs = rs ≡ inputs (concat cmd " ") ∷ []
IsRouted local cmd rs = All IsNoInput rs

abbrev is_local : CommandMode → Bool
is_local local = true
is_local passthrough = false

-- Whether the handler treats a text itself exactly if its mode says so; it is not empty.
abbrev is_known : CommandMode → Bool → Bool → Bool → Bool
is_known m empty clears models =
    not empty && (if is_local m then clears || models else not (clears || models))

pick :
    (m : CommandMode) (cmd : String) (empty clears models : Bool) (a b c d : Screen × List Request)
    → is_known m empty clears models ≡ true
    → All IsNoInput b.1
    → All IsNoInput c.1
    → d.1 ≡ inputs (concat cmd " ") ∷ []
    → IsRouted m cmd (if empty then a else if clears then b else if models then c else d).1
unfolding IsRouted
pick m cmd true clears models a b c d k hb hc hd = cc
pick local cmd false true models a b c d k hb hc hd = hb
pick local cmd false false true a b c d k hb hc hd = hc
pick local cmd false false false a b c d k hb hc hd = cc
pick passthrough cmd false true models a b c d k hb hc hd = cc
pick passthrough cmd false false true a b c d k hb hc hd = cc
pick passthrough cmd false false false a b c d k hb hc hd = hd

abbrev is_known_command : SlashCommand → Bool
is_known_command c =
    let t = trim (concat c.cmd " ") in is_known c.mode (is_empty t) (t == "/clear") (t == "/model")

known_commands : all is_known_command slash_commands ≡ true
unfolding trim
known_commands = refl

ready : (e h c : Bool) → h ≡ true → c ≡ true → (e || not h || not c) ≡ e
ready e h c p q = rw (p, q) (or_false e)
  where
    or_false : (b : Bool) → (b || false || false) ≡ b
    or_false true = refl
    or_false false = refl

all-All {ℓ κ} :
    {A : Type ℓ} (p : A → Bool) (P : A → Type κ) (xs : List A)
    → ((x : A) → p x ≡ true → P x)
    → all p xs ≡ true
    → All P xs
all-All p P [] f h = tt
all-All p P (x ∷ xs) f h = elim (Bool-cases (p x)) [
  | inl e ↦ (f x e, all-All p P xs f (ground (arith, h, e)))
  | inr e ↦ absurd (ground (arith, h, e))
]

module _ (to_number : Json → Option ℤ) where
  handle_send-IsRouted :
      (now : String) (s : Screen) (c : SlashCommand)
      → s.has_client ≡ true
      → s.connected ≡ true
      → is_known_command c ≡ true
      → IsRouted c.mode c.cmd (handle_send to_number now (select_slash_command c.cmd s)).1
  unfolding handle_send select_slash_command send_text fetch_models
  handle_send-IsRouted now s c p q k =
      let t = trim (concat c.cmd " ") in
      let s' = select_slash_command c.cmd s in
      rw (ready (is_empty t) s.has_client s.connected p q) (
        pick c.mode c.cmd (is_empty t) (t == "/clear") (t == "/model") (s', [])
          (record (change to_number resets_messages s') { input = "" }, [])
          (record ((fetch_models s').0) { input = "" }, (fetch_models s').1)
          (send_text to_number now s') k tt (tt, tt) refl)

  -- Each command of the list, once it is picked and sent on a connected screen, does as its mode says:
  -- one that passes through is sent to the session as it is, with a space behind it; a local one
  -- sends the session no input.
  pub handle_send-slash_commands :
      (now : String) (s : Screen)
      → s.has_client ≡ true
      → s.connected ≡ true
      → All
          (λ c. IsRouted c.mode c.cmd (handle_send to_number now (select_slash_command c.cmd s)).1)
          slash_commands
  handle_send-slash_commands now s p q =
      all-All is_known_command _ slash_commands (λ c k. handle_send-IsRouted now s c p q k)
        known_commands
