-- ===== src/Tray/Profiles/Edges.antt =====
-- cmd/tray/profile_editor_windows.go: the edges that the editor offers.
use text.Mathlib.Text.{◌==◌ as str_eq}
use ea_share.Base.{
  ℕ, zero, suc, ◌≡◌, refl, sym, String, true, some, arith, Bool-cases, inl, inr, eq_iff, get_elem?,
}
use ea_share.Tray.Profiles.{edge_values, is_seen, index_of_edge}

-- What holds of each of the five holds of every one of them.
pub edge_cases :
    (P : String → Type 0)
    → P ""
    → P "left"
    → P "right"
    → P "top"
    → P "bottom"
    → (v : String) → is_seen edge_values v ≡ true
    → P v
unfolding is_seen
edge_cases P none left right top bottom v h = elim (Bool-cases (str_eq "" v)) [
  | inl e ↦ rw (sym ((eq_iff "" v).0 e)) none
  | inr a ↦ elim (Bool-cases (str_eq "left" v)) [
    | inl e ↦ rw (sym ((eq_iff "left" v).0 e)) left
    | inr b ↦ elim (Bool-cases (str_eq "right" v)) [
      | inl e ↦ rw (sym ((eq_iff "right" v).0 e)) right
      | inr c ↦ elim (Bool-cases (str_eq "top" v)) [
        | inl e ↦ rw (sym ((eq_iff "top" v).0 e)) top
        | inr d ↦ elim (Bool-cases (str_eq "bottom" v)) [
          | inl e ↦ rw (sym ((eq_iff "bottom" v).0 e)) bottom
          | inr e ↦ absurd (ground arith)
        ]
      ]
    ]
  ]
]

pub value-index_of_edge :
    (v : String) → is_seen edge_values v ≡ true → get_elem? edge_values (index_of_edge v) ≡ some v
unfolding index_of_edge
value-index_of_edge = edge_cases _ refl refl refl refl refl

pub index_of_edge-value :
    (k : ℕ) (v : String) → get_elem? edge_values k ≡ some v → index_of_edge v ≡ k
unfolding index_of_edge
index_of_edge-value zero v e = let p : "" ≡ v = cc in rw (sym p) refl
index_of_edge-value (suc zero) v e = let p : "left" ≡ v = cc in rw (sym p) refl
index_of_edge-value (suc (suc zero)) v e = let p : "right" ≡ v = cc in rw (sym p) refl
index_of_edge-value (suc (suc (suc zero))) v e = let p : "top" ≡ v = cc in rw (sym p) refl
index_of_edge-value (suc (suc (suc (suc zero)))) v e = let p : "bottom" ≡ v = cc in rw (sym p) refl
index_of_edge-value (suc (suc (suc (suc (suc k))))) v e = cc
