-- ===== src/Service/Grouping.antt =====
-- The grouping of the requests of `ReadPropertyMultiple` by object.
use bacnet_go.Base.{◌≡◌, List, [], ◌∷◌, ◌++◌, append_assoc, append-nil, if◌then◌else◌, arith}
use bacnet_go.Service.{Groups, same_object, add_request, group_from, group_requests}
use bacnet_go.Types.Device.{ReadPropertyRequest}
use bacnet_go.Types.ObjectId.{ObjectIdentifier}

-- What the map holds for an object, and the requests for that object.
pub requests_of : ObjectIdentifier → Groups → List ReadPropertyRequest
requests_of oid [] = []
requests_of oid ((oid', reqs) ∷ groups) =
    if same_object oid oid' then reqs else requests_of oid groups

pub asked_of : ObjectIdentifier → List ReadPropertyRequest → List ReadPropertyRequest
asked_of oid [] = []
asked_of oid (req ∷ reqs) =
    let rest = asked_of oid reqs in if same_object oid req.object_id then req ∷ rest else rest

requests_of-add_request :
    (oid : ObjectIdentifier) (req : ReadPropertyRequest) (groups : Groups)
    → requests_of oid (add_request req groups) ≡ (
        if same_object oid req.object_id
        then requests_of oid groups ++ (req ∷ [])
        else requests_of oid groups)
unfolding requests_of add_request
requests_of-add_request oid req [] = ground arith
requests_of-add_request oid req ((oid', reqs) ∷ groups) =
    ground (arith, requests_of-add_request oid req groups)

requests_of-group_from :
    (oid : ObjectIdentifier) (reqs : List ReadPropertyRequest) (groups : Groups)
    → requests_of oid (group_from reqs groups) ≡ requests_of oid groups ++ asked_of oid reqs
unfolding group_from asked_of
requests_of-group_from oid [] groups = ground (arith, append-nil (requests_of oid groups))
requests_of-group_from oid (req ∷ reqs) groups = ground (
  arith,
  requests_of-group_from oid reqs (add_request req groups),
  requests_of-add_request oid req groups,
  append_assoc (requests_of oid groups) (req ∷ []) (asked_of oid reqs),
)

-- For each object the map holds the requests for that object, all of them and in order.
pub requests_of-group_requests :
    (oid : ObjectIdentifier) (reqs : List ReadPropertyRequest)
    → requests_of oid (group_requests reqs) ≡ asked_of oid reqs
unfolding group_requests requests_of
requests_of-group_requests oid reqs = requests_of-group_from oid reqs []
