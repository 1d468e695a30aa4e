-- ===== src/Game/Server/Effects.antt =====
-- What each call of the network does to the entities of the channels.
use ecs_asio_server.Common.{
  ℕ, ◌+◌, ◌≤◌, ◌≡◌, refl, sym, ap, List, Bool, true, false, not, ◌&&◌, Option, none, some, ◌==◌,
  arith, if_cases, length, subst,
}
use ecs_asio_server.Common.Tables.{find, erase_key, assign}
use ecs_asio_server.Channel.{Channel}
use ecs_asio_server.Ecs.Entities.{EntityManager}
use ecs_asio_server.Ecs.Entities.Calls.{next_destroy}
use ecs_asio_server.Channel.Send.{send}
use ecs_asio_server.Game.World.{World, Service, service_destroy, remove_all_components}
use ecs_asio_server.Game.Net.{
  ◌>>=◌, frame_for, send_locked, send_test_found, send_test_frame, broadcast_loop, broadcast,
  broadcast_except, on_close, send_found, send_unlocked, entity_or_zero,
}
use ecs_asio_server.Game.Server.Links.{Linked, holds, forget-Linked, unlink-Linked}

-- What the server keeps of the entities of its channels.
abbrev pub Sound : World → Type 0
Sound w = Linked w.channel_to_entity w.service.entities

abbrev pub next_id : World → ℕ
next_id w = w.service.entities.next_entity_id

-- The state that a call leaves, if it returns.
abbrev pub Returns : (World → Type 0) → Option World → Type 0
Returns P none = Unit {0}
Returns P (some w) = P w

pub then-Returns :
    (P Q : World → Type 0) (r : Option World) (f : World → Option World)
    → Returns P r
    → ((w : World) → P w → Returns Q (f w))
    → Returns Q (r >>= f)
then-Returns P Q none f h g = tt
then-Returns P Q (some w) f h g = g w h

update-Returns :
    {A : Type 0} (P : World → Type 0) (r : Option A) (f : A → World)
    → ((a : A) → P (f a))
    → Returns P (r >>= λ a. some (f a))
update-Returns P none f h = tt
update-Returns P (some a) f h = h a

-- The entities and their channels are as in `w`.
abbrev pub Kept : World → World → Type 0
Kept w u = (u.channel_to_entity ≡ w.channel_to_entity) × (u.service.entities ≡ w.service.entities)

pub Kept-Sound : (w u : World) → Kept w u → Sound w → Sound u
Kept-Sound w u k v =
    subst (λ t. Linked t u.service.entities) (sym k.0)
      (subst (Linked w.channel_to_entity) (sym k.1) v)

-- A send under mtx_ changes the channels only: what holds whatever they are holds behind it.
pub send_test_frame-Returns :
    (P : World → Type 0) (channel_id cmd : ℕ) (bytes : List ℕ) (w : World)
    → ((t : List (ℕ × Channel)) → P (record w { channels = t }))
    → Returns P (send_test_frame channel_id cmd bytes w)
unfolding send_test_frame send_test_found
send_test_frame-Returns P channel_id cmd bytes w h = found (find channel_id w.channels)
  where
    found : (r : Option Channel) → Returns P (send_test_found channel_id cmd bytes w r)
    found none = h w.channels
    found (some c) =
        update-Returns P (send_locked (frame_for cmd bytes) c)
          (λ d. record w { channels = assign channel_id d w.channels })
          (λ d. h (assign channel_id d w.channels))

pub broadcast_except-Returns :
    (P : World → Type 0) (exclude cmd : ℕ) (bytes : List ℕ) (w : World)
    → ((t : List (ℕ × Channel)) → P (record w { channels = t }))
    → Returns P (broadcast_except exclude cmd bytes w)
unfolding broadcast_except
broadcast_except-Returns P exclude cmd bytes w h =
    update-Returns P (broadcast_loop (λ id. id == exclude) (frame_for cmd bytes) w.channels)
      (λ t. record w { channels = t }) h

pub send_test_frame-Kept :
    (channel_id cmd : ℕ) (bytes : List ℕ) (w : World)
    → Returns (Kept w) (send_test_frame channel_id cmd bytes w)
send_test_frame-Kept channel_id cmd bytes w =
    send_test_frame-Returns (Kept w) channel_id cmd bytes w (λ t. (refl, refl))

pub broadcast-Kept :
    (cmd : ℕ) (bytes : List ℕ) (w : World) → Returns (Kept w) (broadcast cmd bytes w)
unfolding broadcast
broadcast-Kept cmd bytes w =
    update-Returns (Kept w) (broadcast_loop (λ id. false) (frame_for cmd bytes) w.channels)
      (λ t. record w { channels = t }) (λ t. (refl, refl))

pub broadcast_except-Kept :
    (exclude cmd : ℕ) (bytes : List ℕ) (w : World)
    → Returns (Kept w) (broadcast_except exclude cmd bytes w)
broadcast_except-Kept exclude cmd bytes w =
    broadcast_except-Returns (Kept w) exclude cmd bytes w (λ t. (refl, refl))

-- After a call: the invariant, and at most one identifier more.
abbrev pub Fine : World → World → Type 0
Fine w u = Sound u × (next_id u ≤ next_id w + 1)

pub Kept-Fine : (w u : World) → Sound w → Kept w u → Fine w u
Kept-Fine w u v k =
    (Kept-Sound w u k v, omega (arith, ap (λ (m : EntityManager). m.next_entity_id) k.1))

holds_own :
    (r : Option ℕ) (b : Bool)
    → (not (entity_or_zero r == 0) && b) ≡ true
    → holds (entity_or_zero r) r ≡ true
holds_own none b h = absurd (ground arith)
holds_own (some e) b h = ground arith

pub on_close-Fine :
    (channel_id : ℕ) (w : World)
    → Sound w
    → (Sound (on_close channel_id w)) × (next_id (on_close channel_id w) ≡ next_id w)
unfolding on_close service_destroy remove_all_components
on_close-Fine channel_id w v =
    let r = find channel_id w.channel_to_entity in
    if_cases
      (λ (s : Service).
        Linked (erase_key channel_id w.channel_to_entity) s.entities
        × (s.entities.next_entity_id ≡ next_id w))
      (not (entity_or_zero r == 0) && w.use_ecs)
      (λ h. (
        unlink-Linked channel_id (entity_or_zero r) w.channel_to_entity w.service.entities
            (holds_own r w.use_ecs h) v,
        next_destroy (entity_or_zero r) w.service.entities,
      ))
      (λ _. (forget-Linked channel_id w.channel_to_entity w.service.entities v, refl))

pub send_unlocked-Fine :
    (channel_id cmd : ℕ) (bytes : List ℕ) (w : World)
    → Sound w
    → (Sound (send_unlocked channel_id cmd bytes w))
      × (next_id (send_unlocked channel_id cmd bytes w) ≡ next_id w)
unfolding send_unlocked send_found
send_unlocked-Fine channel_id cmd bytes w v = found (find channel_id w.channels)
  where
    found :
        (r : Option Channel)
        → (Sound (send_found channel_id cmd bytes w r))
          × (next_id (send_found channel_id cmd bytes w r) ≡ next_id w)
    found none = (v, refl)
    found (some c) =
        let d = send (frame_for cmd bytes) c in
        let u = record w { channels = assign channel_id d w.channels } in
        if_cases (λ (x : World). Sound x × (next_id x ≡ next_id w))
          (length c.close_calls == length d.close_calls) (λ _. (v, refl))
          (λ _. on_close-Fine channel_id u v)
