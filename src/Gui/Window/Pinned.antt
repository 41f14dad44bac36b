-- ===== src/Gui/Window/Pinned.antt =====
-- From the form of the window of crates/gui/src/main.rs to the server that a dial goes on with.
use my_deskflow.Prelude.{
  ℕ, ◌≡◌, ◌↔◌, refl, ap, ◌∙◌, subst, String, true, false, Option, some, List, [], ◌∷◌,
}
use my_deskflow.Prelude.Bytes.{Bytes, to_ascii_lowercase}
use my_deskflow.Core.Error.{Error, Result, ok}
use my_deskflow.Core.Files.{FileSystem}
use my_deskflow.Core.Config.{Toml, client}
use my_deskflow.Daemon.Lifecycle.{Bound}
use my_deskflow.Daemon.Requests.{
  ClientConfig, Daemon, StatusReply, dial, Surroundings, is_empty_text, handle_request,
}
use my_deskflow.Daemon.Requests.Dialing.{connect-pins}
use my_deskflow.Network.Tls.{Hash, accept_server}
use my_deskflow.Gui.Actions.{Action, connect_to, request_of, panel}
use my_deskflow.Gui.Window.{
  Window, Frame, form_fingerprint, connect_click, render_client_panel, render, above_panels, update,
}
use my_deskflow.Gui.Window.Allowed.{Shows}

module _ (fs : FileSystem) (toml : Toml) (show : Error → String) (path : String)
    (parent : Option String) (name : String) where
  open fs use {Files}

  -- What a click on "Connect" dispatches while the window shows a client.
  update-connect :
      (trim : Bytes → Bytes) (k : Frame) (f : Files) (w : Window) (s : StatusReply)
      → Shows (above_panels fs toml show trim path parent name k w) s
      → s.role ≡ client
      → k.clicks.connect_clicked ≡ true
      → k.clicks.disconnect_clicked ≡ false
      → is_empty_text (trim k.clicks.addr_text) ≡ false
      → is_empty_text (trim k.clicks.pin_text) ≡ false
      → (update fs toml show trim path parent name k f w).dispatched
        ≡ connect_to (trim k.clicks.addr_text) (some (trim k.clicks.pin_text)) ∷ []
  unfolding update render render_client_panel connect_click form_fingerprint panel
  update-connect trim k f w s shows role click still addr pin =
      rw (shows.decided, shows.launches, shows.reached, shows.seen, role, click, still, addr, pin)
        refl

  -- A frame in which the window shows a client and only "Connect" is clicked, of its two buttons,
  -- with an address and a fingerprint that are not blank, dispatches one action; its request, at a
  -- daemon in the client role that finds the trimmed address, dials that address and nothing else,
  -- and the dial goes on with a server exactly if the hash of the server's certificate is the
  -- trimmed fingerprint, but for the case of its letters. Trimming twice is trimming once.
  pub connect_click-pins :
      (e : Surroundings) (k : Frame) (f : Files) (w : Window) (s : StatusReply)
      (binding : Result Error Bound) (d : Daemon) (bound : List ℕ) (target : String)
      (cfg : ClientConfig) (hash : Hash) (cert message signature : Bytes)
      → ((text : Bytes) → e.trim (e.trim text) ≡ e.trim text)
      → Shows (above_panels fs toml show e.trim path parent name k w) s
      → s.role ≡ client
      → k.clicks.connect_clicked ≡ true
      → k.clicks.disconnect_clicked ≡ false
      → is_empty_text (e.trim k.clicks.addr_text) ≡ false
      → is_empty_text (e.trim k.clicks.pin_text) ≡ false
      → e.resolve (e.trim k.clicks.addr_text) ≡ ok target
      → d.client_base ≡ some cfg
      → d.has_client_controller ≡ true
      → (a : Action) × (c : ClientConfig) × ((update fs toml show e.trim path parent name k f
            w).dispatched
          ≡ a ∷ [])
        × ((handle_request e binding d bound (request_of a)).dispatched ≡ dial c ∷ [])
        × (c.server_addr ≡ target)
        × ((accept_server hash c.trusted_fingerprints cert message signature ≡ ok tt)
            ↔ (to_ascii_lowercase (e.trim k.clicks.pin_text) ≡ to_ascii_lowercase (hash cert)))
  unfolding request_of
  connect_click-pins e k f w s binding d bound target cfg hash cert message signature trims shows
        role click still addr pin found base controls =
      let asked = update-connect e.trim k f w s shows role click still addr pin in
      let (c, dials, reaches, law) =
        connect-pins e binding d bound (e.trim k.clicks.addr_text) (e.trim k.clicks.pin_text) target
          cfg hash cert message signature found base controls
          (ap is_empty_text (trims k.clicks.pin_text) ∙ pin) in
      (
        connect_to (e.trim k.clicks.addr_text) (some (e.trim k.clicks.pin_text)),
        c,
        asked,
        dials,
        reaches,
        subst
            (λ pinned.
              (accept_server hash c.trusted_fingerprints cert message signature ≡ ok tt)
              ↔ (to_ascii_lowercase pinned ≡ to_ascii_lowercase (hash cert)))
            (trims k.clicks.pin_text) law,
      )
