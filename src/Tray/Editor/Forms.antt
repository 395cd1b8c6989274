-- ===== src/Tray/Editor/Forms.antt =====
-- cmd/tray/profile_editor_windows.go: the two pages of the editor.
use ea_share.Base.{String, Bool, false, none, some, List, ℤ, pos, negsuc, get_elem?}
use ea_share.Tray.Profiles.{TargetProfile, ControllerProfile, edge_values, index_of_edge}
use ea_share.Tray.Editor
use ea_share.Tray.Editor.{Form, Page}

pub record TargetFields : Type 0 where
  pub name : String
  pub listen : String
  pub token : String

-- The texts, the combo box's index (-1 is none) and the check box.
pub record CtrlFields : Type 0 where
  pub name : String
  pub connect : String
  pub token : String
  pub edge : ℤ
  pub udp : Bool

abbrev pub target_form : Form TargetProfile TargetFields
target_form = record {
  committed = λ f tp. record { name = f.name; listen = f.listen; token = f.token };
  fields_of = λ tp. record { name = tp.name; listen = tp.listen; token = tp.token };
  blank = record { name = ""; listen = ""; token = "" };
}

-- `edgeValues[idx]`, where the index is in range.
unfoldable pub edge_at : ℤ → String → String
edge_at (pos i) old = elim (get_elem? edge_values i) [ some e ↦ e | none ↦ old ]
edge_at (negsuc i) old = old

abbrev pub ctrl_form : Form ControllerProfile CtrlFields
ctrl_form = record {
  committed = λ f cp. record {
    name = f.name;
    connect = f.connect;
    token = f.token;
    edge = edge_at f.edge cp.edge;
    udp_mouse = f.udp;
  };
  fields_of = λ cp. record {
    name = cp.name;
    connect = cp.connect;
    token = cp.token;
    edge = pos (index_of_edge cp.edge);
    udp = cp.udp_mouse;
  };
  blank = record { name = ""; connect = ""; token = ""; edge = pos 0; udp = false };
}

abbrev pub TargetPage : Type 0
TargetPage = Page TargetProfile TargetFields

abbrev pub CtrlPage : Type 0
CtrlPage = Page ControllerProfile CtrlFields

unfoldable pub commit_target : TargetPage → TargetPage
commit_target = Editor.commit target_form

unfoldable pub load_target : ℤ → TargetPage → TargetPage
load_target = Editor.load target_form

unfoldable pub refresh_target_list : List ℤ → ℤ → TargetPage → TargetPage
refresh_target_list = Editor.refresh target_form

-- The button, with the name of a new profile in the current language.
unfoldable pub add_target : String → List ℤ → TargetPage → TargetPage
add_target name = Editor.add target_form (record { name = name; listen = ":7777"; token = "" })

unfoldable pub remove_target : ℤ → Bool → List ℤ → TargetPage → TargetPage
remove_target = Editor.remove target_form

unfoldable pub commit_ctrl : CtrlPage → CtrlPage
commit_ctrl = Editor.commit ctrl_form

unfoldable pub load_ctrl : ℤ → CtrlPage → CtrlPage
load_ctrl = Editor.load ctrl_form

unfoldable pub refresh_ctrl_list : List ℤ → ℤ → CtrlPage → CtrlPage
refresh_ctrl_list = Editor.refresh ctrl_form

unfoldable pub add_ctrl : String → List ℤ → CtrlPage → CtrlPage
add_ctrl name =
    Editor.add ctrl_form
      (record { name = name; connect = ""; token = ""; edge = ""; udp_mouse = false })

unfoldable pub remove_ctrl : ℤ → Bool → List ℤ → CtrlPage → CtrlPage
remove_ctrl = Editor.remove ctrl_form
