-- ===== src/Lib.antt =====
-- Problem Bulletin, a board for problems and a ticket tracker on PostgreSQL: the services that keep
-- its tickets, bounties, votes, sprints and limits, as functions on tables.
--
-- A service method is a call on a session (`Exec` of Domain/Session.antt): it takes the tables of
-- the transaction and gives a result or an error beside the tables. A UUID is a number, a datetime
-- counts microseconds, a text is a list of code points. Service.antt is the request round a
-- method, with commit or rollback, and the sequences of requests. Calls run one after another.
-- Where a service locks the rows it changes, this is what concurrent requests come to;
-- problems.py, solutions.py, projects.py, sprints.py and comments.py take no lock, so what is said
-- of them is said of calls that do not overlap, but for create_version, which gets the versions as
-- its query found them.
--
-- Prelude.antt: shared names, lists, Boolean tests, tables (Table.antt), texts (Text.antt).
-- Domain.antt: app/enums.py (Enums), app/models/*.py (Rows, Runs), the session with
--   app/services/audit.py and the staging of app/events.py (Session).
-- Workflow.antt: _ALLOWED_TRANSITIONS of app/services/tickets.py; Workflow/Matrix.antt: the matrix
--   of docs/specs/ticketing-v2.md.
-- Hierarchy.antt: _PARENT_ALLOWED, _validate_hierarchy and _walk_to_epic of app/services/tickets.py;
--   Forest, Cycles and Epic below it are their theory.
-- Tickets.antt: TicketService of app/services/tickets.py, with a child for each method or pair of
--   methods: Create (create), Update (update), Move (transition), Assign (assign, claim), Remove
--   (delete with the foreign keys of app/models), Links (link, list_links), Comments (add_comment),
--   Watchers. Forest and History are what the methods do to the parent pointers and to the
--   transition log, Races is two requests on one ticket.
--   Tickets/Listing.antt is list_page, with Counts and AllPages below it.
-- Paging.antt: keyset pages under a cursor, as list_page and the inbox lists cut them: the order of the
--   rows, what comes after a cursor, and a client that follows cursors (Paging/Client.antt).
-- Cursors.antt: app/services/_pagination.py, plain and signed cursors, over Python's base64
--   (Cursors/Base64.antt). Cursors/Plain.antt gives the pages what they rely on in a cursor.
-- Notifications.antt: app/services/ticket_notifications.py: excerpts, recipients, coalescing, the
--   fanouts that the ticket methods call, and the inbox (Notifications/Mailbox.antt).
-- DueSoon.antt: app/services/due_soon_scanner.py. Projects.antt: app/services/projects.py, with the
--   members in Projects/Members.antt; TicketService has its own row of a project, with the sequence.
-- Board.antt: the problem board: Board/Problems.antt is app/services/problems.py, Board/Solutions.antt
--   app/services/solutions.py, Board/Comments.antt app/services/comments.py with its sanitizer in
--   Board/Sanitize.antt, Board/Watches.antt app/services/watches.py.
-- Queue.antt: enqueue of app/services/agent_run_queue.py, which assign calls; Queue/Worker.antt: its
--   process_one. SHA-256, the provider and the printing of ids are arguments.
-- Service.antt: get_db of app/database.py round the methods, and what clients can reach.
-- Bounties.antt: app/services/bounties.py. Votes.antt: app/services/voting.py and toggle_vote of
--   app/services/share_posts.py. Sprints.antt: app/services/sprints.py. RateLimit.antt:
--   app/middleware/rate_limit.py.
-- Examples.antt: concrete inputs.
--
-- The loop of _validate_hierarchy has the number of tickets plus two as fuel: a round that goes on
-- has met a ticket that no earlier round met. _walk_to_epic has the 50 rounds of the code.
--
-- Arguments stand for what lies outside: the clock, new UUIDs, the answer of the database to a
-- flush (a trigger or a constraint may refuse a row), the people that handles in a comment resolve
-- to, the JSON of cursors, HMAC, the word signs and small letters of Unicode, which inserts of
-- a scan fail, and which answers of a provider the database refuses. A scan and the database have
-- one clock. _TAG_RE.sub has the length of the text as fuel: each round takes at least one sign
-- off.
--
-- Not modelled: searches and lists that only read, get_subtree and list_activity, attachments, the
-- text of an error in Python among the writes after an agent's answer, the feed and the
-- leaderboard of the board, the deletion of a solution (its flush depends on what SQLAlchemy does
-- with the versions), the tree of get_comments, the realtime hub, routes and schemas.
pub mod Prelude
pub mod Domain
pub mod Workflow
pub mod Hierarchy
pub mod Notifications
pub mod Queue
pub mod Tickets
pub mod Service
pub mod Paging
pub mod Cursors
pub mod Board
pub mod DueSoon
pub mod Projects
pub mod Examples
pub mod Bounties
pub mod RateLimit
pub mod Votes
pub mod Sprints
