-- ===== src/Server/Reader/Tests.antt =====
-- A witness of the reader's theorem: a stream with a frame of one gray pixel, whose first read is
-- split.
use image_processing_engine.Prelude.{ℕ, true, false, ◌==◌, if◌then◌else◌, List, [], ◌∷◌, ◌++◌}
use image_processing_engine.Prelude.Integers.{ℤ, pos, ltb_ℤ}
use image_processing_engine.Prelude.Ascii.{codes}
use image_processing_engine.OpChain.{OpKind}
use image_processing_engine.OpChain.Numerics.{Floats}
use image_processing_engine.Protocol.{
  RequestHeader, Limits, magic_number, version_number, encode_request_header,
}
use image_processing_engine.SlotPool.{SlotPool, no_owner, slot}
use image_processing_engine.Socket.{transferred, interrupted}
use image_processing_engine.Server.{connect, job_submitted}
use image_processing_engine.Server.Reader.{Session}

abbrev whole_floats : Floats
whole_floats = record {
  F = ℤ;
  strtof = λ text. (pos 0, 0);
  is_finite = λ n. true;
  hundredths = λ n. n;
  of_hundredths = λ n. n;
  less = ltb_ℤ;
}

abbrev header : RequestHeader
header = record {
  magic = magic_number;
  version = version_number;
  flags = 1;
  seq_num = 3;
  width = 1;
  height = 1;
  channels = 1;
  payload_len = 1;
  chain_len = 6;
}

abbrev limits : Limits
limits = record { max_payload = 4; max_chain = 256 }

-- The frame, and the first byte of the next one.
abbrev arriving : List ℕ
arriving = encode_request_header header ++ (codes "invert" ++ (200 ∷ 73 ∷ []))

abbrev one_free : SlotPool
one_free = record {
  base = 4096;
  count = 1;
  bytes = 4;
  per_owner_cap = 1;
  free_list = 0 ∷ [];
  owner_of = no_owner ∷ [];
  held_by_owner = [];
  blocked_claims = 0;
  closed = false;
}

abbrev before : Session ℤ
before = record {
  connection = connect 7;
  socket = record {
    events = transferred 10 ∷ interrupted ∷ transferred 40 ∷ transferred 6 ∷ transferred 1 ∷ [];
    stream = arriving;
  };
  slots = one_free;
  memory = λ address. 0 ∷ 0 ∷ 0 ∷ 0 ∷ [];
  queue = record { items = []; capacity = 2; high_water = 0; closed = false };
}

abbrev behind : Session ℤ
behind = record before {
  connection = job_submitted (connect 7);
  socket = record { events = []; stream = 73 ∷ [] };
  slots = record one_free { free_list = []; owner_of = 7 ∷ []; held_by_owner = (7, 1) ∷ [] };
  memory = λ address. if address == 4096 then 200 ∷ 0 ∷ 0 ∷ 0 ∷ [] else 0 ∷ 0 ∷ 0 ∷ 0 ∷ [];
  queue = record {
    items =
        record {
          connection = 7;
          seq_num = 3;
          flags = 1;
          slot = 0;
          width = pos 1;
          height = pos 1;
          channels = pos 1;
          chain = record { kind = OpKind.invert; param = pos 0 } ∷ [];
        }
        ∷ [];
    capacity = 2;
    high_water = 1;
    closed = false;
  };
}
