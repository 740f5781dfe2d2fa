-- ===== src/Codes.antt =====
-- include/zookeeper.h, include/proto.h and src/zk/zk_adaptor.h: the constants of the client, as words
-- of 32 bits.
use ext_zookeeper.Prelude.{ℕ, ◌-◌, ◌^◌}

-- The word of -k.
abbrev pub neg : ℕ → ℕ
neg k = 2 ^ 32 - k

-- enum ZOO_ERRORS
abbrev pub zok : ℕ
zok = 0

abbrev pub zsystemerror : ℕ
zsystemerror = neg 1

abbrev pub zruntimeinconsistency : ℕ
zruntimeinconsistency = neg 2

abbrev pub zdatainconsistency : ℕ
zdatainconsistency = neg 3

abbrev pub zconnectionloss : ℕ
zconnectionloss = neg 4

abbrev pub zmarshallingerror : ℕ
zmarshallingerror = neg 5

abbrev pub zunimplemented : ℕ
zunimplemented = neg 6

abbrev pub zoperationtimeout : ℕ
zoperationtimeout = neg 7

abbrev pub zbadarguments : ℕ
zbadarguments = neg 8

abbrev pub zinvalidstate : ℕ
zinvalidstate = neg 9

abbrev pub zapierror : ℕ
zapierror = neg 100

abbrev pub znonode : ℕ
znonode = neg 101

abbrev pub znoauth : ℕ
znoauth = neg 102

abbrev pub zbadversion : ℕ
zbadversion = neg 103

abbrev pub znochildrenforephemerals : ℕ
znochildrenforephemerals = neg 108

abbrev pub znodeexists : ℕ
znodeexists = neg 110

abbrev pub znotempty : ℕ
znotempty = neg 111

abbrev pub zsessionexpired : ℕ
zsessionexpired = neg 112

abbrev pub zinvalidcallback : ℕ
zinvalidcallback = neg 113

abbrev pub zinvalidacl : ℕ
zinvalidacl = neg 114

abbrev pub zauthfailed : ℕ
zauthfailed = neg 115

abbrev pub zclosing : ℕ
zclosing = neg 116

abbrev pub znothing : ℕ
znothing = neg 117

abbrev pub zsessionmoved : ℕ
zsessionmoved = neg 118

-- The states of a handle.
abbrev pub expired_session_state : ℕ
expired_session_state = neg 112

abbrev pub auth_failed_state : ℕ
auth_failed_state = neg 113

abbrev pub connecting_state : ℕ
connecting_state = 1

abbrev pub associating_state : ℕ
associating_state = 2

abbrev pub connected_state : ℕ
connected_state = 3

abbrev pub notconnected_state : ℕ
notconnected_state = 999

-- The types of events.
abbrev pub created_event : ℕ
created_event = 1

abbrev pub deleted_event : ℕ
deleted_event = 2

abbrev pub changed_event : ℕ
changed_event = 3

abbrev pub child_event : ℕ
child_event = 4

abbrev pub session_event : ℕ
session_event = neg 1

abbrev pub notwatching_event : ℕ
notwatching_event = neg 2

-- The xids that are no request numbers.
abbrev pub watcher_event_xid : ℕ
watcher_event_xid = neg 1

abbrev pub ping_xid : ℕ
ping_xid = neg 2

abbrev pub auth_xid : ℕ
auth_xid = neg 4

abbrev pub set_watches_xid : ℕ
set_watches_xid = neg 8

-- The operations.
abbrev pub zoo_create_op : ℕ
zoo_create_op = 1

abbrev pub zoo_delete_op : ℕ
zoo_delete_op = 2

abbrev pub zoo_exists_op : ℕ
zoo_exists_op = 3

abbrev pub zoo_getdata_op : ℕ
zoo_getdata_op = 4

abbrev pub zoo_setdata_op : ℕ
zoo_setdata_op = 5

abbrev pub zoo_getacl_op : ℕ
zoo_getacl_op = 6

abbrev pub zoo_setacl_op : ℕ
zoo_setacl_op = 7

abbrev pub zoo_getchildren_op : ℕ
zoo_getchildren_op = 8

abbrev pub zoo_sync_op : ℕ
zoo_sync_op = 9

abbrev pub zoo_ping_op : ℕ
zoo_ping_op = 11

abbrev pub zoo_getchildren2_op : ℕ
zoo_getchildren2_op = 12

abbrev pub zoo_check_op : ℕ
zoo_check_op = 13

abbrev pub zoo_multi_op : ℕ
zoo_multi_op = 14

abbrev pub zoo_close_op : ℕ
zoo_close_op = neg 11

abbrev pub zoo_setauth_op : ℕ
zoo_setauth_op = 100

abbrev pub zoo_setwatches_op : ℕ
zoo_setwatches_op = 101
