-- ===== src/Routing/Edge/Trace.antt =====
-- Runs of the edge detector of crates/daemon/src/edge.rs over any events.
use my_deskflow.Prelude.{◌≡◌, refl, ap, ◌∙◌, arith, List, [], ◌∷◌}
use my_deskflow.Core.Screen.{ScreenId}
use my_deskflow.Core.Modifiers.{ModifierState}
use my_deskflow.Core.Event.{InputEvent}
use my_deskflow.Routing.Edge.{
  EdgeDetector, local, remote, stay, leave_remote, to_remote, observe, force_local, note_modifiers,
}

-- The detector after a run of events.
pub observe_all : EdgeDetector → List InputEvent → EdgeDetector
observe_all d [] = d
observe_all d (e ∷ es) = observe_all (observe d e).0 es

-- Away from home every event is forwarded, and nothing but an order to come back changes the route.
pub observe-remote :
    (d : EdgeDetector) (screen : ScreenId) (e : InputEvent)
    → d.route ≡ remote screen
    → ((observe d e).0.route ≡ remote screen)
      × ((observe d e).1 ≡ stay)
      × ((observe d e).2 ≡ to_remote)
unfolding observe
observe-remote d screen e r = (ground arith, ground arith, ground arith)

-- No run of events, cursor moves included, brings the route back from a remote screen: only
-- `force_local` does, and it names the screen that is left.
pub observe_all-remote :
    (d : EdgeDetector) (screen : ScreenId) (es : List InputEvent)
    → d.route ≡ remote screen
    → ((observe_all d es).route ≡ remote screen)
      × ((force_local (observe_all d es)).0.route ≡ local)
      × ((force_local (observe_all d es)).1 ≡ leave_remote screen)
unfolding observe_all force_local
observe_all-remote d screen [] r = (r, ground arith, ground arith)
observe_all-remote d screen (e ∷ es) r =
    observe_all-remote (observe d e).0 screen es (observe-remote d screen e r).0

-- The modifiers that the last key or synchronisation event carried.
pub last_modifiers : ModifierState → List InputEvent → ModifierState
last_modifiers m [] = m
last_modifiers m (InputEvent.key k ∷ es) = last_modifiers k.modifiers es
last_modifiers m (InputEvent.modifier_sync n ∷ es) = last_modifiers n es
last_modifiers m (_ ∷ es) = last_modifiers m es

modifiers-observe :
    (d : EdgeDetector) (e : InputEvent) → (observe d e).0.modifiers ≡ (note_modifiers d e).modifiers
unfolding observe
modifiers-observe d e = ground arith

-- The detector always knows the modifiers of the last event that carried any, on either route.
pub modifiers-observe_all :
    (d : EdgeDetector) (es : List InputEvent)
    → (observe_all d es).modifiers ≡ last_modifiers d.modifiers es
unfolding observe_all last_modifiers
modifiers-observe_all d [] = refl
modifiers-observe_all d (InputEvent.key k ∷ es) =
    modifiers-observe_all (observe d (InputEvent.key k)).0 es
    ∙ ap (λ m. last_modifiers m es) (modifiers-observe d (InputEvent.key k))
modifiers-observe_all d (InputEvent.modifier_sync m ∷ es) =
    modifiers-observe_all (observe d (InputEvent.modifier_sync m)).0 es
    ∙ ap (λ m. last_modifiers m es) (modifiers-observe d (InputEvent.modifier_sync m))
modifiers-observe_all d (e ∷ es) =
    modifiers-observe_all (observe d e).0 es ∙ ap (λ m. last_modifiers m es) (modifiers-observe d e)
