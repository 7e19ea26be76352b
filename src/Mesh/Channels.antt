-- ===== src/Mesh/Channels.antt =====
-- The channels of a MeshClient (src/services/mesh_client.cpp).
use nexus_d_pub_sub.Prelude.{
  ◌≡◌, refl, Text, [], ◌∷◌, ◌++◌, All, Option, some, Option-cases, inl, inr, map,
}
use mathlib.Core.List.{map-append}
use nexus_d_pub_sub.Prelude.Map.{find, assign-All, find-All}
use nexus_d_pub_sub.Sidecar.{MessageEnvelope}
use nexus_d_pub_sub.Mesh.Client.{
  Channel, Stub, ChannelEntry, Request, pushes, Grpc, MeshClient, start, get_stub, push_message,
}

-- Where a call goes.
abbrev pub call_of : Stub × Request → Text × Request
call_of (s, r) = (s.channel.endpoint, r)

-- An entry has a stub, of its channel, which goes to the endpoint that is its key.
abbrev pub IsConnected : Text × ChannelEntry → Type 0
IsConnected (endpoint, entry) =
    (entry.stub ≡ some (record { channel = entry.channel })) × (entry.channel.endpoint ≡ endpoint)

module _ (g : Grpc) (connects : (c : Channel) → g.new_stub c ≡ some (record { channel = c })) where
  -- The stub found goes to the endpoint, no call was started, and every entry is connected.
  abbrev Stubbed : Text → MeshClient → Option Stub × MeshClient → Type 0
  Stubbed endpoint c (stub, c') =
      (s : Stub) × (stub ≡ some s)
      × (s.channel.endpoint ≡ endpoint)
      × (c'.started ≡ c.started)
      × All IsConnected c'.channels

  get_stub-Stubbed :
      (endpoint : Text) (c : MeshClient)
      → All IsConnected c.channels
      → Stubbed endpoint c (get_stub g endpoint c)
  unfolding get_stub
  get_stub-Stubbed endpoint c h = elim (Option-cases (find endpoint c.channels)) [
    | inr (entry, e) ↦
        let (stub, goes_there) = find-All IsConnected endpoint entry c.channels e h in
        rw (e, get_stub) (record { channel = entry.channel }, stub, goes_there, refl, h)
    | inl e ↦
        let channel : Channel = record { endpoint = endpoint; number = c.created } in
        let entry : ChannelEntry = record { channel = channel; stub = g.new_stub channel } in
        rw (e, get_stub)
          (
            record { channel = channel },
            connects channel,
            refl,
            refl,
            assign-All IsConnected endpoint entry c.channels (connects channel, refl) h,
          )
  ]

  pub push_message-started :
      (endpoint : Text) (e : MessageEnvelope) (c : MeshClient)
      → All IsConnected c.channels
      → let c' = (push_message g endpoint e c).1 in
        (map call_of c'.started ≡ map call_of c.started ++ (endpoint, pushes e) ∷ [])
        × All IsConnected c'.channels
  unfolding push_message start
  push_message-started endpoint e c h =
      let (s, stub, there, kept, hs) = get_stub-Stubbed endpoint c h in
      rw (stub, push_message) (rw (start, map-append, kept, there) refl, hs)
