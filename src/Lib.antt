-- ===== src/Lib.antt =====
-- Verification of QNXstuff: the programs of an Internet provider on QNX 6.
--
-- QX-billing counts and gates the traffic of an interface. Its filter is a module of io-net
-- (QX-billing/qxc_*.c): each packet of the watched interface is parsed, judged by the rules in force
-- and, if it is to be paid for, logged. The logger (QX-billing/qxl_*.c) sends rules and takes the log
-- through a device of the filter.
--
-- Files. Prelude: shared names, lists, memory, pairs of buffers.
--   Filter/Packet: log_parse_pkt of QX-billing/qxc_logging.c. Filter/Rules: qxc_rules.c, with the
--   exemptions in Exempts, the tree of clients in Nics, the promise in Spec. Filter/Log: the queue
--   of qxc_logging.c. Filter/State and Filter/Gate: qxc_rx_up and qxc_rx_down of qxc_main.c.
--   Filter/Control: qxc_rm_devctl of qxc_rm.c. Filter/Tests: runs and witnesses.
--   Logger/Sessions: the sessions that main of QX-billing/qxl_main.c makes of a log.
--
-- nfm-ntc is the older filter: it passes the packets of listed addresses, and captures their heads
-- for a reader of /dev/ntc, through which the list and the interfaces are set as well.
--   Ntc/Blocks: the list of addresses, its promise in Spec. Ntc/Ifaces: the interfaces. Ntc/Queue: the
--   captures. Ntc/Gate: ntc_rx_up and ntc_rx_down of nfm-ntc/main.c. Ntc/Control: ntc_rm_devctl of
--   nfm-ntc/ntc_rm.c. Ntc/Tests: runs and witnesses.
--
-- QX-dns is a name server that asks others and keeps their answers.
--   Dns/Cache: qxdns_cache_init, _add and _lookup of QX-dns/cache.c. Dns/Requests: thread_handler of
--   QX-dns/main.c and its queue. Dns/Master: the names of the zones of QX-dns/master.c. Dns/Tests,
--   Dns/Requests/Tests, Dns/Master/Tests: runs and witnesses.
--
-- QX-base is a database server; a connection narrows the rows of a table by conditions.
--   Base/Filters: the comparisons of QX-base/qbase_filterfunc.c. Base/Conditions: Qbase_data_filter of
--   QX-base/qbase_iofunc.c and the commands that define, pop and delete conditions. Base/Tests: runs
--   and witnesses.
--
-- QX-mail is a mail server: clients fetch mail by POP3 and hand it in by SMTP, and a spooler
-- delivers it. Mail/Lines: ReadString of QX-mail/general.c. Mail/Md5: MD5bin and GetMD5.
--   Mail/Text, Mail/Mailboxes: what the C library does with text, the list of mailboxes, their mutexes.
--   Mail/Pop: thread_handler_pop of QX-mail/pop3.c, with the state in Connection, the commands in
--   Login and Messages, the loop in Session. Mail/Smtp: thread_handler_smtp of QX-mail/smtp.c, with
--   the state in Connection, the commands in Envelope, Body and Auth, the loop in Session.
--   Mail/Spooler: Spooler of QX-mail/spooler.c, its groups of recipients in Mail/Spooler.antt, what it
--   asks the DNS server in Question and makes of the answer in Answer, the hosts in Connect, the
--   dialogue in Remote. Tests in Mail and in each of its folders: runs and witnesses.
--
-- All of them read their configuration by getconf/GetConf.c.
--   Conf/Tokens: GetConf_token and GetConf_string. Conf/Tests: runs and witnesses.
--
-- State is passed on explicitly, one record for the variables of each C file, and one function for
-- each C function under its name. Memory that two pointers exchange is a pair of arrays
-- (Prelude/Buffers); a pointer into an array is an index, and one to an allocation its number. The
-- locks make each operation one step. Words are native numbers; sums that can wrap have
-- their % 2 ^ 32 written out. A buffer of QX-mail that sprintf fills has the bytes that are printed,
-- and a field `overrun` says whether they passed its end: from then on the model is not what the code
-- does. In the spooler, such a delivery is undefined.
--
-- Fuel. The search in the tree of clients takes as much fuel as the array has elements, and the
-- loop that links a client in as much as it has rules: links lead to later elements, so both suffice,
-- and the theorems show that neither runs out. The search in the list of nfm-ntc takes as much fuel
-- as nodes were allocated: each links to an older one. The search in the queue of QX-dns takes
-- its fuel as an argument; as much as buffers wait suffices where the queue is linked as it should be.
--
-- A handler of QX-mail works on a stream of deliveries, of which every read takes at least a byte:
-- as much fuel as the stream has bytes, and one more, suffices for its loops, and as much as the
-- buffer has places for ReadString. The spooler takes as much as it has recipients for its groups; a
-- name in an answer is read with the fuel given, as it may have no end.
--
-- Not modelled: io-net, devctl and the system calls, whose results are
-- arguments; the Base64 routines of QX-mail, a copy of those of Cyrus SASL, its
-- check for viruses, and the queue that its spooler waits at; the records of the
-- master zones of QX-dns, of which the outcome of a lookup is an argument; threads, which the
-- locks reduce to steps in a row; printing.
pub mod Prelude
pub mod Filter
pub mod Ntc
pub mod Dns
pub mod Base
pub mod Logger
pub mod Conf
pub mod Mail
