-- ===== src/Trcp/Errors.antt =====
-- `TRCPError`.
use liminal_osai.Prelude.{String, Exception}

abbrev pub trcp_error : String → Exception
trcp_error m = record { type_name = "TRCPError"; message = m }
