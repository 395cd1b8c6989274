-- ===== src/Tray/Messages.antt =====
-- cmd/tray/i18n.go: the texts of the tray in its two languages.
pub mod Complete
use text.Mathlib.Text.{◌==◌ as str_eq}
use ea_share.Base.{String, if◌then◌else◌, Option, none, some, List, [], ◌∷◌}

-- `messages[langEN]`.
abbrev pub english : List (String × String)
english =
    ("status.stopped", "stopped")
    ∷ ("status.listening_as", "listening as %s")
    ∷ ("status.controlling", "controlling %s")
    ∷ ("status.target_listening", "listening")
    ∷ ("status.ctrl_connecting", "connecting…")
    ∷ ("status.connected_tcp", "connected (TCP)")
    ∷ ("status.connected_udp", "connected (TCP+UDP)")
    ∷ ("menu.listen_as_target", "Listen as target")
    ∷ ("menu.connect_to", "Connect to")
    ∷ ("menu.stop_target", "Stop target")
    ∷ ("menu.stop_controller", "Stop controller")
    ∷ ("menu.copy_token", "Copy target token")
    ∷ ("menu.edit_profiles", "Edit profiles")
    ∷ ("menu.reload_profiles", "Reload profiles")
    ∷ ("menu.language", "Language")
    ∷ ("menu.quit", "Quit")
    ∷ ("edge.always_share", "always share")
    ∷ ("editor.title", "kbs — Profiles")
    ∷ ("editor.tab_targets", "Targets")
    ∷ ("editor.tab_controllers", "Controllers")
    ∷ ("editor.field_name", "Name")
    ∷ ("editor.field_listen", "Listen")
    ∷ ("editor.field_token", "Token")
    ∷ ("editor.field_connect", "Connect")
    ∷ ("editor.field_edge", "Edge")
    ∷ ("editor.field_udp_mouse", "Performance mode (UDP mouse, requires Edge)")
    ∷ ("editor.add", "+ Add")
    ∷ ("editor.remove", "- Remove")
    ∷ ("editor.close", "Close")
    ∷ ("editor.save", "Save")
    ∷ ("editor.save_restart", "Save && restart running")
    ∷ ("editor.new_target", "New target")
    ∷ ("editor.new_controller", "New controller")
    ∷ ("editor.confirm_remove_title", "Remove profile?")
    ∷ ("editor.confirm_remove_body", "Remove %q? This can't be undone.")
    ∷ ("editor.error_title", "Can't save")
    ∷ ("editor.error_name_required", "Every profile needs a name.")
    ∷ ("editor.error_name_duplicate", "Two profiles are named %q — names must be unique.")
    ∷ ("editor.error_listen_required", "%q: Listen address is required.")
    ∷ ("editor.error_connect_required", "%q: Connect address is required.")
    ∷ ("editor.error_token_required", "%q: Token is required.")
    ∷ (
      "editor.error_udp_requires_edge",
      "%q: performance mode (UDP) requires an Edge side to be set.",
    )
    ∷ []

-- `messages[langPT]`.
abbrev pub portuguese : List (String × String)
portuguese =
    ("status.stopped", "parado")
    ∷ ("status.listening_as", "ouvindo como %s")
    ∷ ("status.controlling", "controlando %s")
    ∷ ("status.target_listening", "escutando")
    ∷ ("status.ctrl_connecting", "conectando…")
    ∷ ("status.connected_tcp", "conectado (TCP)")
    ∷ ("status.connected_udp", "conectado (TCP+UDP)")
    ∷ ("menu.listen_as_target", "Ouvir como target")
    ∷ ("menu.connect_to", "Conectar em")
    ∷ ("menu.stop_target", "Parar target")
    ∷ ("menu.stop_controller", "Parar controller")
    ∷ ("menu.copy_token", "Copiar token do target")
    ∷ ("menu.edit_profiles", "Editar perfis")
    ∷ ("menu.reload_profiles", "Recarregar perfis")
    ∷ ("menu.language", "Idioma")
    ∷ ("menu.quit", "Sair")
    ∷ ("edge.always_share", "sempre compartilhar")
    ∷ ("editor.title", "kbs — Perfis")
    ∷ ("editor.tab_targets", "Targets")
    ∷ ("editor.tab_controllers", "Controllers")
    ∷ ("editor.field_name", "Nome")
    ∷ ("editor.field_listen", "Listen")
    ∷ ("editor.field_token", "Token")
    ∷ ("editor.field_connect", "Connect")
    ∷ ("editor.field_edge", "Edge")
    ∷ ("editor.field_udp_mouse", "Modo performance (mouse via UDP, exige Edge)")
    ∷ ("editor.add", "+ Adicionar")
    ∷ ("editor.remove", "- Remover")
    ∷ ("editor.close", "Fechar")
    ∷ ("editor.save", "Salvar")
    ∷ ("editor.save_restart", "Salvar e reiniciar em execução")
    ∷ ("editor.new_target", "Novo target")
    ∷ ("editor.new_controller", "Novo controller")
    ∷ ("editor.confirm_remove_title", "Remover perfil?")
    ∷ ("editor.confirm_remove_body", "Remover %q? Não tem como desfazer.")
    ∷ ("editor.error_title", "Não deu pra salvar")
    ∷ ("editor.error_name_required", "Todo perfil precisa de um nome.")
    ∷ (
      "editor.error_name_duplicate",
      "Dois perfis estão com o nome %q — os nomes precisam ser únicos.",
    )
    ∷ ("editor.error_listen_required", "%q: o endereço Listen é obrigatório.")
    ∷ ("editor.error_connect_required", "%q: o endereço Connect é obrigatório.")
    ∷ ("editor.error_token_required", "%q: o Token é obrigatório.")
    ∷ (
      "editor.error_udp_requires_edge",
      "%q: o modo performance (UDP) exige um lado de Edge configurado.",
    )
    ∷ []

-- A Go map from keys to texts, read by `m[k]`; `none` is a missing key.
unfoldable pub text_lookup : String → List (String × String) → Option String
text_lookup k [] = none
text_lookup k ((j, t) ∷ m) = if str_eq j k then some t else text_lookup k m

-- `messages[l]`; a language that the map lacks has no texts.
unfoldable pub messages : String → List (String × String)
messages l = if str_eq l "en" then english else if str_eq l "pt" then portuguese else []

-- The text of a key, empty where both languages lack it.
unfoldable pub template : String → String → String
template lang k = elim (text_lookup k (messages lang)) [
  | some t ↦ t
  | none ↦ elim (text_lookup k (messages "en")) [ some t ↦ t | none ↦ "" ]
]

module _ (sprintf : String → List String → String) where
  -- `tr` with text arguments.
  unfoldable pub tr : String → String → List String → String
  tr lang k [] = template lang k
  tr lang k (arg ∷ args) = sprintf (template lang k) (arg ∷ args)
