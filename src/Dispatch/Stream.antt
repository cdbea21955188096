-- ===== src/Dispatch/Stream.antt =====
-- What clients send, from the packets over the bytes to the handlers.
use lh_server.Prelude.{
  ℕ, ◌≡◌, ◌<◌, ◌==◌, refl, ap, sym, ◌∙◌, List, [], ◌∷◌, ◌++◌, map, false, some, if◌then◌else◌,
  length, take, drop, take-append-drop, length-append, arith,
}
use lh_server.World.{World, Env, crash}
use lh_server.Protocol.{name_bytes, char_byte}
use lh_server.Protocol.Frames.{length-name_bytes}
use lh_server.Net.{Finish, returned, bad_count, spins, recv_packet_construct}
use lh_server.Net.Framing.{IsFrame, AllFrames, concat}
use lh_server.Net.Contract.{Keeps, Shows, Implements}
use lh_server.Net.Refinement.{recv_frames}
use lh_server.Session.{Server}
use lh_server.Dispatch.Requests.{Request, cs_login, cs_signup, unknown, decode}
use lh_server.Dispatch.Wire.{encode_request, IsSendable}
use lh_server.Dispatch.Decoded.{decode-append}
use lh_server.Dispatch.{Database, handle, is_unknown, process_packet, process_all, on_recv}

abbrev pub AllSendable : List Request → Type 0
AllSendable [] = Unit {0}
AllSendable (r ∷ rs) = IsSendable r × AllSendable rs

-- The handlers of the requests, one after another.
abbrev pub handle_all : Env → Database → ℕ → List Request → World → World
handle_all env db uid [] w = w
handle_all env db uid (r ∷ rs) w = handle_all env db uid rs (handle env db uid r w)

encode_request-IsFrame : (r : Request) → IsFrame (encode_request r)
unfolding encode_request
encode_request-IsFrame (cs_login name pass character) = omega (
  arith,
  length-name_bytes name,
  length-name_bytes pass,
  length-append (name_bytes name) (name_bytes pass ++ char_byte character),
  length-append (name_bytes pass) (char_byte character),
)
encode_request-IsFrame (cs_signup name pass) = omega (
  arith,
  length-name_bytes name,
  length-name_bytes pass,
  length-append (name_bytes name) (name_bytes pass),
)
encode_request-IsFrame _ = omega arith

AllFrames-map : (rs : List Request) → AllFrames (map encode_request rs)
AllFrames-map [] = tt
AllFrames-map (r ∷ rs) = (encode_request-IsFrame r, AllFrames-map rs)

-- A buffer that begins with a packet is read as that packet.
decode-shown :
    (r : Request) (buf : List ℕ)
    → IsSendable r
    → take (length (encode_request r)) buf ≡ encode_request r
    → decode buf ≡ r
decode-shown r buf h e =
    ap decode (sym (take-append-drop (length (encode_request r)) buf) ∙ rw e refl)
    ∙ decode-append r (drop (length (encode_request r)) buf) h

sendable_known : (r : Request) → IsSendable r → is_unknown r ≡ false
sendable_known unknown h = absurd h
sendable_known _ h = refl

process_packet-request :
    (env : Env) (db : Database) (uid : ℕ) (r : Request) (buf : List ℕ) (s : Server)
    → decode buf ≡ r
    → is_unknown r ≡ false
    → process_packet env db uid buf s ≡ record s { world = handle env db uid r s.world }
unfolding process_packet
process_packet-request env db uid r buf s e known = rw (e, known) refl

process_all-requests :
    (env : Env) (db : Database) (uid : ℕ) (rs : List Request) (bufs : List (List ℕ)) (s : Server)
    → AllSendable rs
    → Shows (map encode_request rs) bufs
    → process_all env db uid bufs s ≡ record s { world = handle_all env db uid rs s.world }
unfolding process_all
process_all-requests env db uid [] [] s h e = refl
process_all-requests env db uid [] (b ∷ bufs) s h e = absurd e
process_all-requests env db uid (r ∷ rs) [] s h e = absurd e
process_all-requests env db uid (r ∷ rs) (buf ∷ bufs) s h e =
    ap (process_all env db uid bufs) (
      process_packet-request env db uid r buf s (decode-shown r buf h.0 e.0) (sendable_known r h.0))
    ∙ process_all-requests env db uid rs bufs (record s { world = handle env db uid r s.world }) h.1
        e.1

-- A client whose receive buffer holds no part of a packet sends packets whose fields fit into their
-- structs, and they arrive in one read: then every one of them is handled, in order and with the values that
-- were sent, nothing else happens to the world, the connections stay as they are, and the buffer holds
-- no part of a packet again.
pub on_recv-encode_request :
    (env : Env) (db : Database) (uid : ℕ) (r : Request) (rs : List Request) (s : Server)
    → AllSendable (r ∷ rs)
    → Keeps [] (s.clients uid)
    → let t = on_recv env db uid (concat (map encode_request (r ∷ rs))) s in
      (t.world ≡ handle_all env db uid (r ∷ rs) s.world)
      × (t.connected ≡ s.connected)
      × Keeps [] (t.clients uid)
unfolding on_recv
on_recv-encode_request env db uid r rs s h k =
    by_bytes (concat (map encode_request (r ∷ rs)))
      (filled (encode_request r) _ (encode_request-IsFrame r))
      (recv_frames (map encode_request (r ∷ rs)) (s.clients uid) (AllFrames-map (r ∷ rs)) k)
  where
    filled : (f more : List ℕ) → IsFrame f → 0 < length (f ++ more)
    filled [] more i = absurd i
    filled (x ∷ f) more i = omega arith

    ends :
        (o : Finish × List (List ℕ))
        → Implements (some [], map encode_request (r ∷ rs)) o
        → let done : Server = process_all env db uid o.1 s in
          let t : Server = elim o.0 [
            | returned cu ↦ record done { clients = λ j. if j == uid then cu else done.clients j }
            | bad_count ↦ record done { world = crash done.world }
            | spins ↦ record done { world = crash done.world }
          ] in
          (t.world ≡ handle_all env db uid (r ∷ rs) s.world)
          × (t.connected ≡ s.connected)
          × Keeps [] (t.clients uid)
    ends (returned cu, bufs) i =
        let all = process_all-requests env db uid (r ∷ rs) bufs s h i.1 in
        (
          ap (λ (t : Server). t.world) all,
          ap (λ (t : Server). t.connected) all,
          ground (arith, i.0),
        )
    ends (bad_count, bufs) i = absurd i.0
    ends (spins, bufs) i = absurd i.0

    by_bytes :
        (bytes : List ℕ)
        → 0 < length bytes
        → Implements
            (some [], map encode_request (r ∷ rs))
            (recv_packet_construct (s.clients uid) bytes)
        → let t = on_recv env db uid bytes s in
          (t.world ≡ handle_all env db uid (r ∷ rs) s.world)
          × (t.connected ≡ s.connected)
          × Keeps [] (t.clients uid)
    by_bytes [] l i = absurd (omega arith)
    by_bytes (b ∷ bs) l i = ends (recv_packet_construct (s.clients uid) (b ∷ bs)) i
