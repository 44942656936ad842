-- ===== src/TlsSession/Names.antt =====
-- The texts of the enumerations of src/core/tls_session.cpp.
use neta_agent.Prelude.{◌≡◌, refl, Text, bytes, ◌==◌, text_eq, if◌then◌else◌}
use neta_agent.Verdict.{TlsSessionRole, TlsSessionRelation}
use neta_agent.TlsSession.{TlsSessionCorrelationStatus}

unfoldable pub role_to_string : TlsSessionRole → Text
role_to_string TlsSessionRole.client = bytes "CLIENT"
role_to_string TlsSessionRole.server = bytes "SERVER"
role_to_string TlsSessionRole.unknown = bytes "UNKNOWN"

unfoldable pub session_relation_to_string : TlsSessionRelation → Text
session_relation_to_string TlsSessionRelation.outbound_tls_session = bytes "OUTBOUND_TLS_SESSION"
session_relation_to_string TlsSessionRelation.outbound_server_identity =
    bytes "OUTBOUND_SERVER_IDENTITY"
session_relation_to_string TlsSessionRelation.inbound_tls_session = bytes "INBOUND_TLS_SESSION"
session_relation_to_string TlsSessionRelation.inbound_client_identity =
    bytes "INBOUND_CLIENT_IDENTITY"
session_relation_to_string TlsSessionRelation.unknown = bytes "UNKNOWN"

unfoldable pub session_status_to_string : TlsSessionCorrelationStatus → Text
session_status_to_string TlsSessionCorrelationStatus.no_match = bytes "NO_MATCH"
session_status_to_string TlsSessionCorrelationStatus.awaiting_identity = bytes "AWAITING_IDENTITY"
session_status_to_string TlsSessionCorrelationStatus.matched = bytes "MATCHED"
session_status_to_string TlsSessionCorrelationStatus.ambiguous = bytes "AMBIGUOUS"

unfoldable pub tls_session_role_from_string : Text → TlsSessionRole
tls_session_role_from_string t =
    if t == bytes "CLIENT"
    then TlsSessionRole.client
    else if t == bytes "SERVER"
    then TlsSessionRole.server
    else TlsSessionRole.unknown

unfoldable pub tls_session_relation_from_string : Text → TlsSessionRelation
tls_session_relation_from_string t =
    if t == bytes "OUTBOUND_TLS_SESSION"
    then TlsSessionRelation.outbound_tls_session
    else if t == bytes "OUTBOUND_SERVER_IDENTITY"
    then TlsSessionRelation.outbound_server_identity
    else if t == bytes "INBOUND_TLS_SESSION"
    then TlsSessionRelation.inbound_tls_session
    else if t == bytes "INBOUND_CLIENT_IDENTITY"
    then TlsSessionRelation.inbound_client_identity
    else TlsSessionRelation.unknown

-- Roles and relations are read back as they were written.
session_names_roundtrip :
    ((r : TlsSessionRole) → tls_session_role_from_string (role_to_string r) ≡ r)
    × ((r : TlsSessionRelation)
        → tls_session_relation_from_string (session_relation_to_string r) ≡ r)
unfolding tls_session_role_from_string role_to_string tls_session_relation_from_string
    session_relation_to_string
session_names_roundtrip = (role, relation)
  where
    role : (r : TlsSessionRole) → tls_session_role_from_string (role_to_string r) ≡ r
    role TlsSessionRole.client = refl
    role TlsSessionRole.server = refl
    role TlsSessionRole.unknown = refl

    relation :
        (r : TlsSessionRelation)
        → tls_session_relation_from_string (session_relation_to_string r) ≡ r
    relation TlsSessionRelation.outbound_tls_session = refl
    relation TlsSessionRelation.outbound_server_identity = refl
    relation TlsSessionRelation.inbound_tls_session = refl
    relation TlsSessionRelation.inbound_client_identity = refl
    relation TlsSessionRelation.unknown = refl
