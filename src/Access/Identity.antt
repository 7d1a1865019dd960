-- ===== src/Access/Identity.antt =====
-- The identity of an agent, from the certificate that the proxy has checked.
use Prim.Native.String.{◌++◌ as text_append}
use Prim.Native.String.append as Append
use it_asset_inventory.Base.{String}

-- What the certificate authority writes as the common name of a machine (server/app/services/ca.py).
abbrev pub common_name : String → String
common_name m = text_append "machine-" m
