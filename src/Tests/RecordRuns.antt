-- ===== src/Tests/RecordRuns.antt =====
-- Records of src/zk/zookeeper.jute.c.
use ext_zookeeper.Prelude.{◌≡◌, refl, some, [], ◌∷◌, arith}
use ext_zookeeper.Recordio.{BuffStruct, Buffer, good}
use ext_zookeeper.Recordio.Transfer.{transfer}
use ext_zookeeper.Recordio.Rules.{Guarded}
use ext_zookeeper.Recordio.Rules
use ext_zookeeper.Jute.Headers.{ReplyHeader}
use ext_zookeeper.Jute.Stats.{Stat, IsStat, stat_bytes}
use ext_zookeeper.Jute.StringVectors.{
  StringVector, IsStringVector, string_vector_bytes, strings_bytes,
}
use ext_zookeeper.Jute.SetWatches.{SetWatches}
use ext_zookeeper.Jute.Events.{WatcherEvent}
use ext_zookeeper.Jute.Responses.{
  GetDataResponse, GetChildren2Response, serialize_get_children2_response,
  deserialize_get_children2_response, get_children2_response_bytes, transfer-get_children2_response,
}
use ext_zookeeper.Jute.Updates.{SetDataRequest, AuthPacket}
use ext_zookeeper.Tests.Heaps.{sample_heap, sample_heap-Allocates}

abbrev reply : ReplyHeader
reply = record { xid = 3; zxid = 1000; err = 0 }

abbrev pub small_stat : Stat
small_stat = record {
  czxid = 1;
  mzxid = 2;
  ctime = 3;
  mtime = 4;
  version = 5;
  cversion = 6;
  aversion = 7;
  ephemeral_owner = 8;
  data_length = 9;
  num_children = 10;
  pzxid = 11;
}

pub small_stat-IsStat : IsStat small_stat
small_stat-IsStat = record {
  czxid = omega arith;
  mzxid = omega arith;
  ctime = omega arith;
  mtime = omega arith;
  version = omega arith;
  cversion = omega arith;
  aversion = omega arith;
  ephemeral_owner = omega arith;
  data_length = omega arith;
  num_children = omega arith;
  pzxid = omega arith;
}

abbrev children : StringVector
children = record { count = 2; items = some (97 ∷ []) ∷ some (98 ∷ []) ∷ [] }

children-IsStringVector : IsStringVector children
children-IsStringVector = record {
  count = refl;
  short = omega arith;
  items = (
    (((omega arith, omega arith), tt), omega arith),
    ((((omega arith, omega arith), tt), omega arith), tt),
  );
}

abbrev nothing : StringVector
nothing = record { count = 0; items = [] }

nothing-IsStringVector : IsStringVector nothing
nothing-IsStringVector = record { count = refl; short = omega arith; items = tt }

abbrev hi : Buffer
hi = record { len = 2; buff = some (104 ∷ 105 ∷ []) }

abbrev watches : SetWatches
watches = record {
  relative_zxid = 9;
  data_watches = children;
  exist_watches = nothing;
  child_watches = nothing;
}

abbrev created : WatcherEvent
created = record { type = 1; state = 3; path = some (47 ∷ 97 ∷ []) }

abbrev found : GetDataResponse
found = record { contents = hi; stat = small_stat }

abbrev listed : GetChildren2Response
listed = record { children = children; stat = small_stat }

transfer-get_children2_response_example :
    transfer sample_heap
      (serialize_get_children2_response sample_heap listed)
      (deserialize_get_children2_response sample_heap)
    ≡ some (good listed)
unfolding get_children2_response_bytes stat_bytes string_vector_bytes strings_bytes
    Rules.string_bytes Rules.text_bytes Rules.int_bytes Rules.long_bytes
transfer-get_children2_response_example =
    transfer-get_children2_response sample_heap sample_heap-Allocates listed
      (record { children = children-IsStringVector; stat = small_stat-IsStat }) (omega arith)

abbrev update : SetDataRequest
update = record { path = some (47 ∷ 97 ∷ []); contents = hi; version = 1 }

abbrev login : AuthPacket
login = record { type = 0; scheme = some (100 ∷ []); auth = hi }

-- A vector that says one string, of which nothing is there.
abbrev lost : BuffStruct
lost = record { len = 4; off = 0; buffer = some (0 ∷ 0 ∷ 0 ∷ 1 ∷ []) }

abbrev lost_rest : BuffStruct
lost_rest = record { len = 4; off = 4; buffer = some (0 ∷ 0 ∷ 0 ∷ 1 ∷ []) }
