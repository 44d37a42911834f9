-- ===== src/YangPush/Names.antt =====
-- The names of operations and datastores in src/yang_push.c.
use netopeer.Common.{◌≡◌, refl, Option, none, some, CString, lit, str_eq, if◌then◌else◌}
use netopeer.YangPush.{Op, op_create, op_delete, op_insert, op_move, op_replace}

unfoldable pub yang_push_op2str : Op → CString
yang_push_op2str op_create = lit "create"
yang_push_op2str op_delete = lit "delete"
yang_push_op2str op_insert = lit "insert"
yang_push_op2str op_move = lit "move"
yang_push_op2str op_replace = lit "replace"

-- An unknown name is an internal error and gives the first operation.
unfoldable pub yang_push_str2op : CString → Op
yang_push_str2op str =
    if str_eq str (lit "create")
    then op_create
    else (if str_eq str (lit "delete")
        then op_delete
        else (if str_eq str (lit "insert")
            then op_insert
            else (if str_eq str (lit "move")
                then op_move
                else (if str_eq str (lit "replace") then op_replace else op_create))))

-- sr_datastore_t, of which the first four have an identity
pub data SrDatastore : Type 0 where
  startup running candidate operational : SrDatastore

unfoldable pub yang_push_ds2ident : SrDatastore → CString
yang_push_ds2ident startup = lit "ietf-datastores:startup"
yang_push_ds2ident running = lit "ietf-datastores:running"
yang_push_ds2ident candidate = lit "ietf-datastores:candidate"
yang_push_ds2ident operational = lit "ietf-datastores:operational"

-- `none` is SR_ERR_UNSUPPORTED.
unfoldable pub yang_push_ident2ds : CString → Option SrDatastore
yang_push_ident2ds str =
    if str_eq str (lit "ietf-datastores:startup")
    then some startup
    else (if str_eq str (lit "ietf-datastores:running")
        then some running
        else (if str_eq str (lit "ietf-datastores:candidate")
            then some candidate
            else (if str_eq str (lit "ietf-datastores:operational")
                then some operational
                else none)))

-- Operations and datastores are read back from their names.
names_back :
    (op : Op) (ds : SrDatastore)
    → (yang_push_str2op (yang_push_op2str op) ≡ op)
      × (yang_push_ident2ds (yang_push_ds2ident ds) ≡ some ds)
unfolding yang_push_op2str yang_push_str2op yang_push_ds2ident yang_push_ident2ds str_eq lit
names_back op ds = (back op, back_ds ds)
  where
    back : (o : Op) → yang_push_str2op (yang_push_op2str o) ≡ o
    back op_create = refl
    back op_delete = refl
    back op_insert = refl
    back op_move = refl
    back op_replace = refl

    back_ds : (d : SrDatastore) → yang_push_ident2ds (yang_push_ds2ident d) ≡ some d
    back_ds startup = refl
    back_ds running = refl
    back_ds candidate = refl
    back_ds operational = refl
