-- ===== src/Remote/System/Laws.antt =====
-- The operations of client.c against what they are to be.
use os_design.Remote.Requests.{htons, to_bytes, from_bytes, c_string}
use os_design.Remote.Requests
use os_design.Remote.Chunks.{client_read, new_buffer}
use os_design.Remote.Requests.{after}
use os_design.Remote.Chunks
