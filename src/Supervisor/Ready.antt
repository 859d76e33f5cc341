-- ===== src/Supervisor/Ready.antt =====
-- windows_agent/event_supervisor.py, `_connection_ids`: only accounts that are connected are polled.
use mathlib.Core.Path.{subst}
use tradejournal_mt5_cloud_w.Prelude.{
  ◌≡◌, refl, ap, ◌∙◌, sym, String, true, false, Option, none, some, List, [], ◌∷◌, arith, str_eq,
  eq_iff, Bool-cases, inl, inr,
}
use tradejournal_mt5_cloud_w.Prelude.Dict.{elem}
use tradejournal_mt5_cloud_w.Prelude.Sort.{elem-sorted}
use tradejournal_mt5_cloud_w.Value.{Value, Row, get, str, null, bool, int, float}
use tradejournal_mt5_cloud_w.Value.Compare.{eq}
use tradejournal_mt5_cloud_w.Supervisor.{
  Entry, is_ready, is_connected, has_secrets, discovered, connection_ids,
}

-- The history handler has published that this account is connected, and its secrets are there.
pub record IsConnected (id : String) (entry : Entry) : Type 0 where
  pub name_is : entry.name ≡ id
  pub is_real : (entry.is_dir ≡ true) × (entry.is_symlink ≡ false)
  pub progress : Row
  pub reads : entry.progress ≡ some progress
  pub own_progress : get "connection_id" progress ≡ str id
  pub is_published : get "status" progress ≡ str "connected"
  pub login : entry.has_secret "mt5_login" ≡ true
  pub server : entry.has_secret "mt5_server" ≡ true
  pub bridge_token : entry.has_secret "bridge_token" ≡ true

-- One of the entries has the property.
pub data Any (P : Entry → Type 0) : List Entry → Type 0 where
  here : (entry : Entry) (entries : List Entry) → P entry → Any P (entry ∷ entries)
  there : (entry : Entry) (entries : List Entry) → Any P entries → Any P (entry ∷ entries)

eq-text : (v : Value) (s : String) → eq v (str s) ≡ true → v ≡ str s
unfolding eq
eq-text (str t) s h = ap str ((eq_iff t s).0 h)
eq-text null s h = cc
eq-text (bool b) s h = cc
eq-text (int n) s h = cc
eq-text (float b) s h = cc

is_connected-both :
    (id : String) (progress : Row)
    → is_connected id (some progress) ≡ true
    → (get "connection_id" progress ≡ str id) × (get "status" progress ≡ str "connected")
unfolding is_connected
is_connected-both id progress h = (
  eq-text (get "connection_id" progress) id (ground arith),
  eq-text (get "status" progress) "connected" (ground arith),
)

module _ (parse_uuid : String → Option String) where
  is_ready-IsConnected :
      (entry : Entry) → is_ready parse_uuid entry ≡ true → IsConnected entry.name entry
  unfolding is_ready has_secrets
  is_ready-IsConnected entry h = by_progress entry.progress refl (ground arith)
    where
      by_progress :
          (progress : Option Row)
          → entry.progress ≡ progress
          → is_connected entry.name progress ≡ true
          → IsConnected entry.name entry
      by_progress none known c = unfold is_connected in cc
      by_progress (some progress) known c =
          let (own, published) = is_connected-both entry.name progress c in
          record {
            name_is = refl;
            is_real = ((ground arith), (ground arith));
            progress = progress;
            reads = known;
            own_progress = own;
            is_published = published;
            login = ground arith;
            server = ground arith;
            bridge_token = ground arith;
          }

  discovered-Any :
      (id : String) (entries : List Entry)
      → elem id (discovered parse_uuid entries) ≡ true
      → Any (IsConnected id) entries
  unfolding discovered elem
  discovered-Any id [] h = cc
  discovered-Any id (entry ∷ entries) h = elim (Bool-cases (is_ready parse_uuid entry)) [
    | inr other ↦ there entry entries (discovered-Any id entries (rw other at h))
    | inl ready ↦ elim (Bool-cases (str_eq entry.name id)) [
      | inl same ↦ here entry entries (
          subst (λ (i : String). IsConnected i entry) ((eq_iff entry.name id).0 same)
            (is_ready-IsConnected entry ready))
      | inr other ↦ there entry entries (discovered-Any id entries (rw other at (rw ready at h)))
    ]
  ]

  -- A half-provisioned account is never polled: the directory of every polled account is a real
  -- one with that name, its progress file names the account and says connected, and its three
  -- secrets are there.
  pub connection_ids-Any :
      (id : String) (entries : List Entry)
      → elem id (connection_ids parse_uuid (some entries)) ≡ true
      → Any (IsConnected id) entries
  unfolding connection_ids
  connection_ids-Any id entries h =
      discovered-Any id entries (sym (elem-sorted id (discovered parse_uuid entries)) ∙ h)
